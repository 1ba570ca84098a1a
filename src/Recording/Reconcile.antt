-- ===== src/Recording/Reconcile.antt =====
-- The comparison of the table with what the storage and the key store hold
-- (backend/app/application/services/recording_storage_reconciler.py).
pub mod Kept
pub mod Record
pub mod Whole
use ai_meeting_copilot.Prelude.{
  ℕ, Bool, true, false, not, ◌||◌, List, [], ◌∷◌, arith, if◌then◌else◌, raise_if,
  application_validation, Result, ok, DateTime, is_utc,
}
use ai_meeting_copilot.Recording.Metadata.{
  RecordingMetadataRecord, is_deleted, FailureCode, key_missing, reconciliation_failed,
}
use ai_meeting_copilot.Exec.{lift, attempt, ◌>>=◌, ◌>>◌, try_else, unless_cancelled}
use ai_meeting_copilot.Recording.Deletion.{mark_deletion_failed, mark_storage_missing}
use ai_meeting_copilot.Recording.Rows.{list_all}
use ai_meeting_copilot.Recording.Work.{
  Resources, Run, external, transit, key_reference_post_init, delete_key_of,
}
use ai_meeting_copilot.Recording.CleanupResult.{
  RecordingCleanupItemResult, RecordingCleanupResult, from_items, item_of, RecordingCleanupOutcome,
  deleted, skipped, failed, missing,
}

module _ {W : Type 0} (R : Resources W) where
  -- `_update`, and `_mark_failure` of this class
  unfoldable pub update_row :
      ℕ → (RecordingMetadataRecord → Result RecordingMetadataRecord) → Run W (Unit {0})
  update_row id f = transit R id f >> lift (ok tt)

  abbrev pub mark_row_failed : ℕ → FailureCode → Run W (Unit {0})
  mark_row_failed id code = update_row id (λ r. mark_deletion_failed r code)

  abbrev pub item : ℕ → RecordingCleanupOutcome → Run W RecordingCleanupItemResult
  item id o = lift (item_of id o)

  abbrev pub when : Bool → Run W (Unit {0}) → Run W (Unit {0})
  when b p = if b then p else lift (ok tt)

  -- The calls in the `try` of `_cleanup_deleted`.
  abbrev pub delete_leftovers : RecordingMetadataRecord → Bool → Bool → Run W (Unit {0})
  delete_leftovers r storage_exists key_exists = do
    when storage_exists (external (R.delete_recording r.metadata.recording_id))
    when key_exists (delete_key_of R r)

  -- `_cleanup_deleted`
  unfoldable pub cleanup_deleted :
      RecordingMetadataRecord → Bool → Bool → Run W RecordingCleanupItemResult
  cleanup_deleted r storage_exists key_exists =
      try_else (delete_leftovers r storage_exists key_exists)
        (unless_cancelled (item r.metadata.recording_id failed))
        (λ _.
          item r.metadata.recording_id (if storage_exists || key_exists then deleted else skipped))

  -- The calls in the `try` of `_reconcile_record`.
  unfoldable pub look : RecordingMetadataRecord → Run W (Bool × Bool)
  look r = do
    storage_exists ← external (R.recording_exists r.metadata.recording_id)
    reference ← lift (key_reference_post_init r.key_reference)
    there ← external (R.key_exists reference)
    lift (ok (storage_exists, there))

  abbrev pub look_failed : RecordingMetadataRecord → Run W RecordingCleanupItemResult
  look_failed r =
      let id = r.metadata.recording_id in
      when (not (is_deleted r.metadata.state)) (mark_row_failed id reconciliation_failed)
      >> item id failed

  abbrev pub compare_kept : ℕ → Bool → Bool → Run W RecordingCleanupItemResult
  compare_kept id true true = item id skipped
  compare_kept id false _ = update_row id mark_storage_missing >> item id missing
  compare_kept id true false = mark_row_failed id key_missing >> item id failed

  abbrev pub compare_row : RecordingMetadataRecord → Bool × Bool → Run W RecordingCleanupItemResult
  compare_row r (storage_exists, there) =
      if is_deleted r.metadata.state
      then cleanup_deleted r storage_exists there
      else compare_kept r.metadata.recording_id storage_exists there

  -- `_reconcile_record`
  unfoldable pub reconcile_record : RecordingMetadataRecord → Run W RecordingCleanupItemResult
  reconcile_record r = try_else (look r) (unless_cancelled (look_failed r)) (compare_row r)

  -- The loop of `reconcile`.
  unfoldable pub reconcile_all :
      List RecordingMetadataRecord → Run W (List RecordingCleanupItemResult)
  reconcile_all [] = lift (ok [])
  reconcile_all (r ∷ rs) = do
    i ← attempt (reconcile_record r) (unless_cancelled (item r.metadata.recording_id failed))
    items ← reconcile_all rs
    lift (ok (i ∷ items))

  -- `reconcile`, at the time of the clock
  unfoldable pub reconcile : DateTime → Run W RecordingCleanupResult
  reconcile now = do
    lift (raise_if (not (is_utc now)) application_validation)
    external R.query
    items ← (λ s. reconcile_all (list_all s.now.rows) s)
    lift (from_items items)
