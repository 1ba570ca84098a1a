-- ===== src/Recording/Cleanup/Cleaned.antt =====
-- What the cleanup of
-- backend/app/application/services/recording_retention_cleanup.py leaves of a recording.
use ai_meeting_copilot.Prelude.{
  ℕ, ◌≡◌, refl, sym, ◌∙◌, ◌⊎◌, inr, Bool, true, Option, none, some, is_space, if◌then◌else◌, Error,
  cancelled_error, ok, DateTime, pos,
}
use ai_meeting_copilot.Recording.Metadata.{
  RecordingMetadataRecord, RecordingState, FailureCode, reconciliation_failed,
}
use ai_meeting_copilot.Exec.{lift}
use ai_meeting_copilot.Exec.Ends.{
  Ends, bind-Ends, attempt-Ends, try_else-Ends, unless_cancelled-Ends,
}
use ai_meeting_copilot.Recording.Rows.{get_by_id, get_by_id-All, none_not_some}
use ai_meeting_copilot.Recording.Work.{System, Resources}
use ai_meeting_copilot.Recording.Work.Ends.{IsSettled, IsHonest, Lawful, IsSettled-Fewer, now_sound}
use ai_meeting_copilot.Recording.Deletion.{is_approved, mark_deleted, mark_deletion_failed}
use ai_meeting_copilot.Recording.Work.Steps.{Later, Transited}
use ai_meeting_copilot.Recording.Work.Queries.{transit-Ends}
use ai_meeting_copilot.Recording.Work.Marks.{mark_deletion_failed-Marked, mark_deleted-found}
use ai_meeting_copilot.Recording.Work.Gone.{Later-trans}
use ai_meeting_copilot.Recording.CleanupResult.{
  RecordingCleanupItemResult, item_post_init, item_of, RecordingCleanupOutcome, deleted, skipped,
  failed, missing,
}
use ai_meeting_copilot.Recording.Cleanup.{mark_failure_quietly, fail, finish_item, finalize_item}

pub item_of-ok :
    (id : ℕ) (o : RecordingCleanupOutcome)
    → (i : RecordingCleanupItemResult) × (item_of id o ≡ ok i)
      × (i.recording_id ≡ id)
      × (i.outcome ≡ o)
unfolding item_of item_post_init is_space
item_of-ok id deleted = (_, refl, refl, refl)
item_of-ok id skipped = (_, refl, refl, refl)
item_of-ok id failed = (_, refl, refl, refl)
item_of-ok id missing = (_, refl, refl, refl)

module _ {W : Type 0} (R : Resources W) (L : Lawful R) (id : ℕ) (s : System W) where
  -- The row of the recording is deleted, and the world holds nothing of it.
  pub record IsCleaned (t : System W) : Type 0 where
    pub row : RecordingMetadataRecord
    pub read_back : get_by_id id t.now.rows ≡ some row
    pub deleted : row.metadata.state ≡ RecordingState.deleted
    pub erased : IsSettled R t.now.world row

  -- What the item of one recording says, and the system behind it.
  pub record Cleaned (item : RecordingCleanupItemResult) (t : System W) : Type 0 where
    pub later : Later R s t
    pub own : item.recording_id ≡ id
    pub cleaned : item.outcome ≡ RecordingCleanupOutcome.deleted → IsCleaned t
    pub absent :
        item.outcome ≡ RecordingCleanupOutcome.missing
        → (get_by_id id t.now.rows ≡ none) ⊎ IsCleaned t

  -- Only a cancellation is raised.
  pub record Stopped (e : Error) (t : System W) : Type 0 where
    pub later : Later R s t
    pub cancelled : e ≡ cancelled_error

  pub item-Ends :
      (o : RecordingCleanupOutcome) (t : System W)
      → Later R s t
      → (o ≡ RecordingCleanupOutcome.deleted → IsCleaned t)
      → (o ≡ RecordingCleanupOutcome.missing → (get_by_id id t.now.rows ≡ none) ⊎ IsCleaned t)
      → Ends Cleaned Stopped (lift {S = System W} (item_of id o) t)
  item-Ends o t k c m =
      let (i, e, own, out) = item_of-ok id o in
      rw e (record {
        holds = record {
          later = k;
          own = own;
          cleaned = λ d. c (sym out ∙ d);
          absent = λ d. m (sym out ∙ d);
        };
      })

  mark_failure_quietly-Ends :
      (code : FailureCode) (t : System W)
      → is_approved code ≡ true
      → Later R s t
      → Ends (λ _ u. Later R s u) Stopped (mark_failure_quietly R id code t)
  unfolding mark_failure_quietly
  mark_failure_quietly-Ends code t p k =
      attempt-Ends {V = λ _ u. Later R s u} _ _ t
        (bind-Ends {V = λ _ u. Later R s u} {E = λ _ u. Later R s u} _ _ t
          (transit-Ends R L id t k.safe (λ r. mark_deletion_failed r code)
            λ r r' e i g. (mark_deletion_failed-Marked R t.now.world r i code r' p g).0)
          (λ o u l. record { holds = Later-trans R s t u k l.later })
          (λ e u l. Later-trans R s t u k l.later))
        (λ _ u l. l)
        (λ e u l.
          unless_cancelled-Ends _ e u (record { holds = l })
            (record { later = l; cancelled = refl }))

  pub fail-Ends :
      (code : FailureCode) (t : System W)
      → is_approved code ≡ true
      → Later R s t
      → Ends Cleaned Stopped (fail R id code t)
  fail-Ends code t p k =
      bind-Ends _ _ t (mark_failure_quietly-Ends code t p k)
        (λ _ u l. item-Ends failed u l (λ e. cc) (λ e. cc)) (λ e u l. l)

  -- The row that was marked as being deleted, once the storage and the key store have answered for it.
  pub record Emptied (r : RecordingMetadataRecord) (t : System W) : Type 0 where
    pub later : Later R s t
    pub found : get_by_id id t.now.rows ≡ some r
    pub erased : IsSettled R t.now.world r

  -- What is left of a row when `_mark_deleted` returned.
  finished :
      (now : DateTime) (gone : Bool) (r : RecordingMetadataRecord) (t : System W)
      (o : Option RecordingMetadataRecord) (u : System W)
      → now.offset ≡ some (pos 0)
      → Emptied r t
      → Transited R id (λ x. mark_deleted x now) t o u
      → Ends Cleaned Stopped (finish_item R id gone o u)
  finished now gone r t none u z k l =
      absurd (none_not_some (get_by_id id t.now.rows) r l.outcome.0 k.found)
  finished now gone r t (some x) u z k l =
      let saved = l.outcome in
      let i =
        get_by_id-All (IsHonest R t.now.world) id t.now.rows saved.row (now_sound R t k.later.safe)
          saved.found in
      let (m, d) =
        mark_deleted-found R t.now.world id t.now.rows r now z k.found k.erased saved.row x
          saved.found i saved.changed in
      let cleaned : IsCleaned u = record {
        row = x;
        read_back = saved.read_back;
        deleted = d;
        erased = IsSettled-Fewer R t.now.world u.now.world x l.later.fewer (m.honest.erased d);
      } in
      item-Ends (if gone then missing else deleted) u (Later-trans R s t u k.later l.later)
        (λ e. cleaned) (λ e. inr cleaned)

  pub finalize_item-Ends :
      (now : DateTime) (gone : Bool) (r : RecordingMetadataRecord) (t : System W)
      → now.offset ≡ some (pos 0)
      → Emptied r t
      → Ends Cleaned Stopped (finalize_item R id now gone t)
  finalize_item-Ends now gone r t z k =
      try_else-Ends _ _ _ t
        (transit-Ends R L id t k.later.safe (λ x. mark_deleted x now)
          λ x x' e i g.
            (mark_deleted-found R t.now.world id t.now.rows r now z k.found k.erased x x' e i g).0)
        (λ o u l. finished now gone r t o u z k l)
        (λ e u l.
          let m = Later-trans R s t u k.later l.later in
          unless_cancelled-Ends _ e u (fail-Ends reconciliation_failed u refl m)
            (record { later = m; cancelled = refl }))
