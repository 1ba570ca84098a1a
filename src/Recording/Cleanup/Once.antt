-- ===== src/Recording/Cleanup/Once.antt =====
-- The cleanup of all expired recordings, `run_once` of
-- backend/app/application/services/recording_retention_cleanup.py.
use ai_meeting_copilot.Prelude.{
  ◌+◌, ◌≡◌, refl, sym, ap, ◌∙◌, ◌⊎◌, inl, inr, some, List, [], ◌∷◌, map, length, length-map, Error,
  cancelled_error, err, DateTime, pos,
}
use ai_meeting_copilot.Recording.Metadata.{RecordingMetadataRecord}
use ai_meeting_copilot.Exec.{lift, ◌>>=◌}
use ai_meeting_copilot.Exec.Ends.{Ends, bind-Ends, weaken-Ends}
use ai_meeting_copilot.Recording.Validity.{is_utc_zero}
use ai_meeting_copilot.Recording.Rows.{list_expired}
use ai_meeting_copilot.Recording.Work.{System, Resources, external}
use ai_meeting_copilot.Recording.Work.Ends.{Lawful, Safe, Fewer-refl}
use ai_meeting_copilot.Recording.Work.Observed.{
  RecordingServices, Observed, observed, observed-Lawful,
}
use ai_meeting_copilot.Recording.Work.Steps.{Later}
use ai_meeting_copilot.Recording.Work.Queries.{Queried, query-Ends}
use ai_meeting_copilot.Recording.Work.Gone.{Later-trans}
use ai_meeting_copilot.Recording.CleanupResult.{
  RecordingCleanupItemResult, RecordingCleanupResult, count, from_items, from_items-ok,
  RecordingCleanupOutcome,
}
use ai_meeting_copilot.Recording.Cleanup.{cleanup_all, run_once}
use ai_meeting_copilot.Recording.Cleanup.Record.{cleanup_record-end}

module _ {W : Type 0} (R : Resources W) (L : Lawful R) (now : DateTime) where
  -- The items are those of the rows, in their order.
  abbrev pub IsItemsOf : List RecordingMetadataRecord → List RecordingCleanupItemResult → Type 0
  IsItemsOf rs is = map (λ r. r.metadata.recording_id) rs ≡ map (λ i. i.recording_id) is

  same_length :
      (rs : List RecordingMetadataRecord) (is : List RecordingCleanupItemResult)
      → IsItemsOf rs is
      → length is ≡ length rs
  same_length rs is e =
      sym (length-map (λ i. i.recording_id) is)
      ∙ ap length (sym e)
      ∙ length-map (λ r. r.metadata.recording_id) rs

  record Listed (s : System W) (rs : List RecordingMetadataRecord)
      (is : List RecordingCleanupItemResult) (t : System W) : Type 0 where
    later : Later R s t
    items : IsItemsOf rs is

  cleanup_all-Ends :
      (rs : List RecordingMetadataRecord) (s : System W)
      → now.offset ≡ some (pos 0)
      → Safe R s
      → Ends
          (λ is t. Listed s rs is t)
          (λ e t. Later R s t × (e ≡ cancelled_error))
          (cleanup_all R now rs s)
  unfolding cleanup_all
  cleanup_all-Ends [] s z h = record {
    holds = record { later = record { safe = h; fewer = Fewer-refl R s.now.world }; items = refl };
  }
  cleanup_all-Ends (r ∷ rs) s z h =
      let id = r.metadata.recording_id in
      bind-Ends _ _ s (cleanup_record-end R L id s now z h)
        (λ i t k.
          bind-Ends _ _ t (cleanup_all-Ends rs t z k.later.safe)
            (λ is u l. record {
              holds = record {
                later = Later-trans R s t u k.later l.later;
                items =
                    ap (◌∷◌ id) l.items ∙ ap (λ j. j ∷ map (λ x. x.recording_id) is) (sym k.own);
              };
            })
            (λ e u l. (Later-trans R s t u k.later l.0, l.1)))
        (λ e t k. (k.later, k.cancelled))

  -- What a completed cleanup reports.
  pub record ReportedOnce (s : System W) (result : RecordingCleanupResult) (t : System W)
      : Type 0 where
    pub later : Later R s t
    pub items : IsItemsOf (list_expired now s.now.rows) result.items
    pub checked : result.checked_count ≡ length (list_expired now s.now.rows)
    pub counts :
        result.deleted_count + result.skipped_count + result.failed_count + result.missing_count
        ≡ result.checked_count
    pub deleted : result.deleted_count ≡ count RecordingCleanupOutcome.deleted result.items

  reported :
      (s t : System W) (is : List RecordingCleanupItemResult)
      → Listed s (list_expired now s.now.rows) is t
      → Ends
          (λ result u. ReportedOnce s result u)
          (λ e u. Later R s u × (e ≡ cancelled_error))
          (lift {S = System W} (from_items is) t)
  reported s t is k =
      let (result, e, items, checked, gone, sum) = from_items-ok is in
      rw e (record {
        holds = record {
          later = k.later;
          items = k.items ∙ ap (map (λ i. i.recording_id)) (sym items);
          checked = checked ∙ same_length (list_expired now s.now.rows) is k.items;
          counts = sum;
          deleted = gone ∙ ap (count RecordingCleanupOutcome.deleted) (sym items);
        };
      })

  -- The query of the expired recordings raised, before anything else.
  pub record QueryFailed (s : System W) (e : Error) (t : System W) : Type 0 where
    pub later : Later R s t
    pub rows : t.now.rows ≡ s.now.rows
    pub raised : (R.query s.now.world).0 ≡ err e

  -- A cancellation was raised, or what the query raised.
  abbrev pub IsInterrupted : System W → Error → System W → Type 0
  IsInterrupted s e t = (Later R s t × (e ≡ cancelled_error)) ⊎ QueryFailed s e t

  Reported-before :
      (s t u : System W) (result : RecordingCleanupResult)
      → Queried R s t
      → ReportedOnce t result u
      → ReportedOnce s result u
  Reported-before s t u result q k = record {
    later = Later-trans R s t u q.later k.later;
    items =
        ap (λ rows. map (λ r. r.metadata.recording_id) (list_expired now rows)) (sym q.rows)
        ∙ k.items;
    checked = k.checked ∙ ap (λ rows. length (list_expired now rows)) q.rows;
    counts = k.counts;
    deleted = k.deleted;
  }

  listed :
      (t : System W)
      → now.offset ≡ some (pos 0)
      → Safe R t
      → Ends
          (λ result u. ReportedOnce t result u)
          (λ e u. Later R t u × (e ≡ cancelled_error))
          (((λ s. cleanup_all R now (list_expired now s.now.rows) s) >>= λ is. lift (from_items is))
            t)
  listed t z h =
      bind-Ends (λ s. cleanup_all R now (list_expired now s.now.rows) s) _ t
        (cleanup_all-Ends (list_expired now t.now.rows) t z h) (λ is u k. reported t u is k)
        (λ e u k. k)

  run_once-end :
      (s : System W)
      → now.offset ≡ some (pos 0)
      → Safe R s
      → Ends (λ result t. ReportedOnce s result t) (λ e t. IsInterrupted s e t) (run_once R now s)
  unfolding run_once ◌>>=◌
  run_once-end s z h =
      let utc = (is_utc_zero now.offset).1 z in
      rw utc (
        bind-Ends (external R.query) _ s (query-Ends R L s h)
          (λ _ t q.
            weaken-Ends _ (listed t z q.later.safe) (λ result u k. Reported-before s t u result q k)
              (λ e u k. inl (Later-trans R s t u q.later k.0, k.1)))
          (λ e t q. inr (record { later = q.0.later; rows = q.0.rows; raised = q.1 })))

-- Cleaning up the expired recordings at a UTC time, whatever the storage, the key store and the
-- database answer or raise. Suppose that every row obeys the lifecycle rules, and that of every
-- deleted row the storage has answered that its audio is deleted or not there, and the key store that
-- its key is. Then this holds at every moment, and what is raised is a cancellation, or what the
-- query of the expired recordings raised before anything was changed. A result has one item for each
-- expired recording, in the order of the query, its four counts add up to their number, and as many
-- items as it says report a deletion.
pub run_once-Ends :
    {V : Type 0} (S : RecordingServices V) (now : DateTime) (s : System (Observed V))
    → now.offset ≡ some (pos 0)
    → Safe (observed S) s
    → Ends
        (λ result t. ReportedOnce (observed S) (observed-Lawful S) now s result t)
        (λ e t. IsInterrupted (observed S) (observed-Lawful S) now s e t)
        (run_once (observed S) now s)
run_once-Ends S now s z h = run_once-end (observed S) (observed-Lawful S) now s z h
