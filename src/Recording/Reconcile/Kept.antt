-- ===== src/Recording/Reconcile/Kept.antt =====
-- What the reconciliation of
-- backend/app/application/services/recording_storage_reconciler.py leaves alone.
use ai_meeting_copilot.Prelude.{
  ℕ, ◌≡◌, refl, ap, ◌∙◌, inl, inr, Bool, true, false, Bool-cases, Error, Result, err, ok,
}
use ai_meeting_copilot.Recording.Metadata.{RecordingMetadataRecord, FailureCode}
use ai_meeting_copilot.Exec.{◌>>=◌, ◌>>◌}
use ai_meeting_copilot.Exec.Ends.{Ends, bind-Ends, weaken-Ends}
use ai_meeting_copilot.Recording.Work.{
  System, Resources, Run, external, is_reference, key_reference_post_init, delete_key_of,
}
use ai_meeting_copilot.Recording.Work.Ends.{Fewer, IsHonest, Lawful, Safe}
use ai_meeting_copilot.Recording.Deletion.{is_approved, mark_deletion_failed}
use ai_meeting_copilot.Recording.Work.Steps.{Later, Answered, Marked, external-Ends}
use ai_meeting_copilot.Recording.Work.Queries.{transit-Ends}
use ai_meeting_copilot.Recording.Work.Marks.{mark_deletion_failed-Marked}
use ai_meeting_copilot.Recording.Work.Gone.{Later-trans, still}
use ai_meeting_copilot.Recording.CleanupResult.{RecordingCleanupItemResult, RecordingCleanupOutcome}
use ai_meeting_copilot.Recording.Reconcile.{update_row, mark_row_failed, item, when}
use ai_meeting_copilot.Recording.Cleanup.Cleaned.{item_of-ok}

module _ {W : Type 0} (R : Resources W) (L : Lawful R) (j : ℕ) where
  -- A later moment, with the audio of one recording as it was.
  pub record Step (s t : System W) : Type 0 where
    pub later : Later R s t
    pub kept : R.is_recording_open s.now.world j ≡ R.is_recording_open t.now.world j

  pub step_trans : (s t u : System W) → Step s t → Step t u → Step s u
  step_trans s t u f g = record {
    later = Later-trans R s t u f.later g.later;
    kept = f.kept ∙ g.kept;
  }

  answered_step :
      {A : Type 0} (call : W → Result A × W) (c : Result A) (s t : System W)
      → Answered R call c s t
      → R.is_recording_open s.now.world j ≡ R.is_recording_open (call s.now.world).1 j
      → Step s t
  answered_step call c s t k e = record {
    later = k.later;
    kept = e ∙ ap (λ w. R.is_recording_open w j) k.world;
  }

  pub call-Step :
      {A : Type 0} (call : W → Result A × W) (s : System W)
      → Safe R s
      → Fewer R s.now.world (call s.now.world).1
      → R.is_recording_open s.now.world j ≡ R.is_recording_open (call s.now.world).1 j
      → Ends (λ _ t. Step s t) (λ _ t. Step s t) (external call s)
  call-Step call s h f e =
      weaken-Ends _ (external-Ends R call s h f) (λ a t k. answered_step call (ok a) s t k e)
        (λ x t k. answered_step call (err x) s t k e)

  pub key_deletion-Step :
      (r : RecordingMetadataRecord) (s : System W)
      → Safe R s
      → Ends (λ _ t. Step s t) (λ _ t. Step s t) (delete_key_of R r s)
  unfolding delete_key_of ◌>>=◌ key_reference_post_init
  key_deletion-Step r s h = elim (Bool-cases (is_reference r.key_reference)) [
    | inl e ↦ rw e (
        call-Step (R.delete_key r.key_reference) s h
          (L.delete_key_fewer r.key_reference s.now.world)
          (L.key_deletion_recordings r.key_reference s.now.world j))
    | inr e ↦ rw e (record { holds = record { later = still R s h; kept = refl } })
  ]

  pub update-Step :
      (id : ℕ) (f : RecordingMetadataRecord → Result RecordingMetadataRecord) (s : System W)
      → Safe R s
      → ((r r' : RecordingMetadataRecord)
          → IsHonest R s.now.world r
          → f r ≡ ok r'
          → Marked R s.now.world r r')
      → Ends (λ _ t. Step s t) (λ _ t. Step s t) (update_row R id f s)
  unfolding update_row
  update-Step id f s h mark =
      bind-Ends {V = λ _ t. Step s t} {E = λ _ t. Step s t} _ _ s
        (transit-Ends R L id s h f λ r r' e i g. mark r r' i g)
        (λ o t k. record { holds = record { later = k.later; kept = k.untouched.recordings j } })
        (λ e t k. record { later = k.later; kept = k.untouched.recordings j })

  pub failure-Step :
      (id : ℕ) (code : FailureCode) (s : System W)
      → is_approved code ≡ true
      → Safe R s
      → Ends (λ _ t. Step s t) (λ _ t. Step s t) (mark_row_failed R id code s)
  failure-Step id code s p h =
      update-Step id (λ r. mark_deletion_failed r code) s h
        λ r r' i g. (mark_deletion_failed-Marked R s.now.world r i code r' p g).0

  pub when-Step :
      (b : Bool) (p : Run W (Unit {0})) (s : System W)
      → Safe R s
      → Ends (λ _ t. Step s t) (λ _ t. Step s t) (p s)
      → Ends (λ _ t. Step s t) (λ _ t. Step s t) (when R b p s)
  when-Step true p s h g = g
  when-Step false p s h g = record { holds = record { later = still R s h; kept = refl } }

  -- The item of one row, and the system behind it.
  pub record Compared (id : ℕ) (s : System W) (i : RecordingCleanupItemResult) (t : System W)
      : Type 0 where
    pub step : Step s t
    pub own : i.recording_id ≡ id

  pub item-Step :
      {E : Error → System W → Type 0} (id : ℕ) (o : RecordingCleanupOutcome) (s t : System W)
      → Step s t
      → Ends (λ i u. Compared id s i u) E (item R id o t)
  item-Step id o s t k =
      let (i, e, own, _) = item_of-ok id o in
      rw e (record { holds = record { step = k; own = own } })

  pub then_item-Step :
      (p : Run W (Unit {0})) (id : ℕ) (o : RecordingCleanupOutcome) (s t : System W)
      → Step s t
      → Ends (λ _ u. Step t u) (λ _ u. Step t u) (p t)
      → Ends (λ i u. Compared id s i u) (λ _ u. Step s u) ((p >> item R id o) t)
  then_item-Step p id o s t k g =
      bind-Ends _ _ t g (λ _ u l. item-Step id o s u (step_trans s t u k l))
        (λ e u l. step_trans s t u k l)
