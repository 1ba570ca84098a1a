-- ===== src/Recording/Reconcile/Record.antt =====
-- The reconciliation of one row, `_reconcile_record` of
-- backend/app/application/services/recording_storage_reconciler.py.
use ai_meeting_copilot.Prelude.{
  ℕ, ◌≡◌, refl, ◌≢◌, inl, inr, Bool, true, false, not, Bool-cases, Result, err, ok,
}
use ai_meeting_copilot.Recording.Metadata.{
  RecordingMetadataRecord, is_deleted, RecordingState, key_missing, reconciliation_failed,
}
use ai_meeting_copilot.Exec.{lift}
use ai_meeting_copilot.Exec.Ends.{
  Ends, bind-Ends, try_else-Ends, unless_cancelled-Ends, weaken-Ends,
}
use ai_meeting_copilot.Recording.Stored.{deleted_state}
use ai_meeting_copilot.Recording.Work.{System, Resources, external, key_reference_post_init}
use ai_meeting_copilot.Recording.Work.Ends.{Same, Lawful, Safe, Same-Fewer}
use ai_meeting_copilot.Recording.Deletion.{mark_storage_missing}
use ai_meeting_copilot.Recording.Work.Marks.{mark_storage_missing-Marked}
use ai_meeting_copilot.Recording.Work.Gone.{still}
use ai_meeting_copilot.Recording.CleanupResult.{skipped, failed, missing}
use ai_meeting_copilot.Recording.Reconcile.{
  delete_leftovers, cleanup_deleted, look, compare_kept, compare_row, reconcile_record,
}
use ai_meeting_copilot.Recording.Reconcile.Kept.{
  Step, Compared, step_trans, call-Step, key_deletion-Step, update-Step, failure-Step, when-Step,
  item-Step, then_item-Step,
}

-- A record that may be deleted is not of this recording.
abbrev pub IsOther : ℕ → RecordingMetadataRecord → Type 0
IsOther j r = r.metadata.state ≡ RecordingState.deleted → j ≢ r.metadata.recording_id

module _ {W : Type 0} (R : Resources W) (L : Lawful R) (j : ℕ) where
  deletion-Step :
      (id : ℕ) (s : System W)
      → Safe R s
      → j ≢ id
      → Ends (λ _ t. Step R L j s t) (λ _ t. Step R L j s t) (external (R.delete_recording id) s)
  deletion-Step id s h n =
      call-Step R L j (R.delete_recording id) s h (L.delete_recording_fewer id s.now.world)
        (L.other_recordings id s.now.world j n)

  leftovers-Step :
      (r : RecordingMetadataRecord) (a b : Bool) (s : System W)
      → Safe R s
      → j ≢ r.metadata.recording_id
      → Ends (λ _ t. Step R L j s t) (λ _ t. Step R L j s t) (delete_leftovers R r a b s)
  leftovers-Step r a b s h n =
      bind-Ends _ _ s (when-Step R L j a _ s h (deletion-Step r.metadata.recording_id s h n))
        (λ _ t k.
          weaken-Ends _
            (when-Step R L j b _ t k.later.safe (key_deletion-Step R L j r t k.later.safe))
            (λ _ u l. step_trans R L j s t u k l) (λ e u l. step_trans R L j s t u k l))
        (λ e t k. k)

  cleanup_deleted-Step :
      (r : RecordingMetadataRecord) (a b : Bool) (s t : System W)
      → Step R L j s t
      → j ≢ r.metadata.recording_id
      → Ends
          (λ i u. Compared R L j r.metadata.recording_id s i u)
          (λ _ u. Step R L j s u)
          (cleanup_deleted R r a b t)
  unfolding cleanup_deleted
  cleanup_deleted-Step r a b s t k n =
      let id = r.metadata.recording_id in
      try_else-Ends _ _ _ t (leftovers-Step r a b t k.later.safe n)
        (λ _ u l. item-Step R L j id _ s u (step_trans R L j s t u k l))
        (λ e u l.
          let m = step_trans R L j s t u k l in
          unless_cancelled-Ends _ e u (item-Step R L j id failed s u m) m)

  lift-Step :
      {A : Type 0} (c : Result A) (s t : System W)
      → Step R L j s t
      → Ends (λ _ u. Step R L j s u) (λ _ u. Step R L j s u) (lift {S = System W} c t)
  lift-Step (ok a) s t k = record { holds = k }
  lift-Step (err e) s t k = record { holds = k }

  probe-Step :
      {A : Type 0} (call : W → Result A × W) (s t : System W)
      → Step R L j s t
      → Same R t.now.world (call t.now.world).1
      → Ends (λ _ u. Step R L j s u) (λ _ u. Step R L j s u) (external call t)
  probe-Step call s t k e =
      weaken-Ends _ (call-Step R L j call t k.later.safe (Same-Fewer R _ _ e) (e.recordings j))
        (λ _ u l. step_trans R L j s t u k l) (λ _ u l. step_trans R L j s t u k l)

  look-Step :
      (r : RecordingMetadataRecord) (s : System W)
      → Safe R s
      → Ends (λ _ t. Step R L j s t) (λ _ t. Step R L j s t) (look R r s)
  unfolding look
  look-Step r s h =
      let id = r.metadata.recording_id in
      let start : Step R L j s s = record { later = still R s h; kept = refl } in
      bind-Ends _ _ s
        (probe-Step (R.recording_exists id) s s start (L.recording_exists_same id s.now.world))
        (λ a t k.
          bind-Ends _ _ t (lift-Step (key_reference_post_init r.key_reference) s t k)
            (λ reference u l.
              bind-Ends _ _ u
                (probe-Step (R.key_exists reference) s u l
                  (L.key_exists_same reference u.now.world))
                (λ b v m. record { holds = m }) (λ e v m. m))
            (λ e u l. l))
        (λ e t k. k)

  compare_kept-Step :
      (id : ℕ) (a b : Bool) (s t : System W)
      → Step R L j s t
      → Ends (λ i u. Compared R L j id s i u) (λ _ u. Step R L j s u) (compare_kept R id a b t)
  compare_kept-Step id true true s t k = item-Step R L j id skipped s t k
  compare_kept-Step id false b s t k = then_item-Step R L j _ id missing s t k (
      update-Step R L j id mark_storage_missing t k.later.safe
        λ r r' i g. mark_storage_missing-Marked R t.now.world r i r' g)
  compare_kept-Step id true false s t k =
      then_item-Step R L j _ id failed s t k (failure-Step R L j id key_missing t refl k.later.safe)

  compare_row-Step :
      (r : RecordingMetadataRecord) (found : Bool × Bool) (s t : System W)
      → Step R L j s t
      → IsOther j r
      → Ends
          (λ i u. Compared R L j r.metadata.recording_id s i u)
          (λ _ u. Step R L j s u)
          (compare_row R r found t)
  compare_row-Step r (a, b) s t k n = elim (Bool-cases (is_deleted r.metadata.state)) [
    | inl e ↦ rw e (cleanup_deleted-Step r a b s t k (n (deleted_state _ e)))
    | inr e ↦ rw e (compare_kept-Step r.metadata.recording_id a b s t k)
  ]

  pub reconcile_record-Step :
      (r : RecordingMetadataRecord) (s : System W)
      → Safe R s
      → IsOther j r
      → Ends
          (λ i t. Compared R L j r.metadata.recording_id s i t)
          (λ _ t. Step R L j s t)
          (reconcile_record R r s)
  unfolding reconcile_record
  reconcile_record-Step r s h n =
      let id = r.metadata.recording_id in
      try_else-Ends _ _ _ s (look-Step r s h) (λ found t k. compare_row-Step r found s t k n)
        (λ e t k.
          unless_cancelled-Ends _ e t
            (then_item-Step R L j _ id failed s t k (
              when-Step R L j (not (is_deleted r.metadata.state)) _ t k.later.safe
                (failure-Step R L j id reconciliation_failed t refl k.later.safe)))
            k)
