-- ===== src/Recording/Reconcile/Whole.antt =====
-- The reconciliation of every row, `reconcile` of
-- backend/app/application/services/recording_storage_reconciler.py.
use mathlib.Core.Path.{subst}
use ai_meeting_copilot.Prelude.{
  ℕ, ◌+◌, ◌≡◌, refl, sym, ap, ◌∙◌, ◌⊎◌, inl, inr, some, List, [], ◌∷◌, map, Error, cancelled_error,
  err, DateTime, pos,
}
use ai_meeting_copilot.Recording.Metadata.{RecordingMetadataRecord}
use ai_meeting_copilot.Exec.{lift, ◌>>=◌}
use ai_meeting_copilot.Exec.Ends.{Ends, bind-Ends, attempt-Ends, unless_cancelled-Ends, weaken-Ends}
use ai_meeting_copilot.Recording.Validity.{is_utc_zero}
use ai_meeting_copilot.Recording.Rows.{list_all, All}
use ai_meeting_copilot.Recording.Work.{System, Resources, external}
use ai_meeting_copilot.Recording.Work.Ends.{Lawful, Safe}
use ai_meeting_copilot.Recording.Work.Observed.{
  RecordingServices, Observed, observed, observed-Lawful,
}
use ai_meeting_copilot.Recording.Work.Queries.{Queried, query-Ends}
use ai_meeting_copilot.Recording.Work.Gone.{still}
use ai_meeting_copilot.Recording.CleanupResult.{
  RecordingCleanupItemResult, RecordingCleanupResult, from_items, from_items-ok, failed,
}
use ai_meeting_copilot.Recording.Rows.Ordered.{list_all-All}
use ai_meeting_copilot.Recording.Reconcile.{reconcile_all, reconcile}
use ai_meeting_copilot.Recording.Reconcile.Kept.{Step, Compared, step_trans, item-Step}
use ai_meeting_copilot.Recording.Reconcile.Record.{IsOther, reconcile_record-Step}

module _ {W : Type 0} (R : Resources W) (L : Lawful R) (j : ℕ) where
  -- The items are those of the rows, in their order.
  pub record Listed (rs : List RecordingMetadataRecord) (s : System W)
      (is : List RecordingCleanupItemResult) (t : System W) : Type 0 where
    pub step : Step R L j s t
    pub items : map (λ r. r.metadata.recording_id) rs ≡ map (λ i. i.recording_id) is

  -- Only a cancellation is raised.
  pub record Halted (s : System W) (e : Error) (t : System W) : Type 0 where
    pub step : Step R L j s t
    pub cancelled : e ≡ cancelled_error

  reconcile_all-Step :
      (rs : List RecordingMetadataRecord) (s : System W)
      → Safe R s
      → All (IsOther j) rs
      → Ends (λ is t. Listed rs s is t) (λ e t. Halted s e t) (reconcile_all R rs s)
  unfolding reconcile_all All
  reconcile_all-Step [] s h a = record {
    holds = record { step = record { later = still R s h; kept = refl }; items = refl };
  }
  reconcile_all-Step (r ∷ rs) s h (n, a) =
      let id = r.metadata.recording_id in
      bind-Ends _ _ s
        (attempt-Ends {V = λ i t. Compared R L j id s i t} {E = λ e t. Halted s e t} _ _ s
          (reconcile_record-Step R L j r s h n) (λ i t k. k)
          (λ e t k.
            unless_cancelled-Ends _ e t (item-Step R L j id failed s t k)
              (record { step = k; cancelled = refl })))
        (λ i t k.
          bind-Ends _ _ t (reconcile_all-Step rs t k.step.later.safe a)
            (λ is u l. record {
              holds = record {
                step = step_trans R L j s t u k.step l.step;
                items =
                    ap (◌∷◌ id) l.items ∙ ap (λ x. x ∷ map (λ y. y.recording_id) is) (sym k.own);
              };
            })
            (λ e u l. record {
              step = step_trans R L j s t u k.step l.step;
              cancelled = l.cancelled;
            }))
        (λ e t k. k)

  -- What a completed reconciliation reports, and what it left alone.
  pub record Reconciled (s : System W) (result : RecordingCleanupResult) (t : System W)
      : Type 0 where
    pub step : Step R L j s t
    pub items :
        map (λ r. r.metadata.recording_id) (list_all s.now.rows)
        ≡ map (λ i. i.recording_id) result.items
    pub counts :
        result.deleted_count + result.skipped_count + result.failed_count + result.missing_count
        ≡ result.checked_count

  reconciled :
      (s t : System W) (is : List RecordingCleanupItemResult)
      → Listed (list_all s.now.rows) s is t
      → Ends
          (λ result u. Reconciled s result u)
          (λ e u. Halted s e u)
          (lift {S = System W} (from_items is) t)
  reconciled s t is k =
      let (result, e, items, checked, gone, sum) = from_items-ok is in
      rw e (record {
        holds = record {
          step = k.step;
          items = k.items ∙ ap (map (λ i. i.recording_id)) (sym items);
          counts = sum;
        };
      })

  -- The query of the rows raised, before anything else.
  pub record QueryBroken (s : System W) (e : Error) (t : System W) : Type 0 where
    pub step : Step R L j s t
    pub rows : t.now.rows ≡ s.now.rows
    pub raised : (R.query s.now.world).0 ≡ err e

  -- A cancellation was raised, or what the query raised.
  abbrev pub IsBrokenOff : System W → Error → System W → Type 0
  IsBrokenOff s e t = Halted s e t ⊎ QueryBroken s e t

  queried_step : (s t : System W) → Queried R s t → Step R L j s t
  queried_step s t q = record { later = q.later; kept = q.untouched.recordings j }

  Reconciled-before :
      (s t u : System W) (result : RecordingCleanupResult)
      → Queried R s t
      → Reconciled t result u
      → Reconciled s result u
  Reconciled-before s t u result q k = record {
    step = step_trans R L j s t u (queried_step s t q) k.step;
    items = ap (λ rows. map (λ r. r.metadata.recording_id) (list_all rows)) (sym q.rows) ∙ k.items;
    counts = k.counts;
  }

  listed :
      (t : System W)
      → Safe R t
      → All (IsOther j) t.now.rows
      → Ends
          (λ result u. Reconciled t result u)
          (λ e u. Halted t e u)
          (((λ s. reconcile_all R (list_all s.now.rows) s) >>= λ is. lift (from_items is)) t)
  listed t h a =
      bind-Ends (λ s. reconcile_all R (list_all s.now.rows) s) _ t
        (reconcile_all-Step (list_all t.now.rows) t h (list_all-All (IsOther j) t.now.rows a))
        (λ is u k. reconciled t u is k) (λ e u k. k)

  reconcile-end :
      (now : DateTime) (s : System W)
      → now.offset ≡ some (pos 0)
      → Safe R s
      → All (IsOther j) s.now.rows
      → Ends (λ result t. Reconciled s result t) (λ e t. IsBrokenOff s e t) (reconcile R now s)
  unfolding reconcile ◌>>=◌
  reconcile-end now s z h a =
      let utc = (is_utc_zero now.offset).1 z in
      rw utc (
        bind-Ends (external R.query) _ s (query-Ends R L s h)
          (λ _ t q.
            weaken-Ends _ (listed t q.later.safe (subst (All (IsOther j)) (sym q.rows) a))
              (λ result u k. Reconciled-before s t u result q k)
              (λ e u k. inl (record {
                step = step_trans R L j s t u (queried_step s t q) k.step;
                cancelled = k.cancelled;
              })))
          (λ e t q. inr (record { step = queried_step s t q.0; rows = q.0.rows; raised = q.1 })))

-- Reconciling at a UTC time, whatever the storage, the key store and the database answer or raise.
-- Suppose that every row obeys the lifecycle rules, and that of every deleted row the storage has
-- answered that its audio is deleted or not there, and the key store that its key is; leftovers of
-- either may be there all the same. Then this holds at every moment, and what is raised is a
-- cancellation, or what the query of the rows raised before anything was changed. A result has one
-- item for each row, in the order of the query, and its four counts add up. Of a recording of which
-- no row is deleted, no deletion is asked that the storage answers: it is answered for after the run
-- exactly if it was before.
pub reconcile-Ends :
    {V : Type 0} (S : RecordingServices V) (j : ℕ) (now : DateTime) (s : System (Observed V))
    → now.offset ≡ some (pos 0)
    → Safe (observed S) s
    → All (IsOther j) s.now.rows
    → Ends
        (λ result t. Reconciled (observed S) (observed-Lawful S) j s result t)
        (λ e t. IsBrokenOff (observed S) (observed-Lawful S) j s e t)
        (reconcile (observed S) now s)
reconcile-Ends S j now s z h a = reconcile-end (observed S) (observed-Lawful S) j now s z h a
