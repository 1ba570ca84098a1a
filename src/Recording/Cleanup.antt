-- ===== src/Recording/Cleanup.antt =====
-- The deletion of expired recordings
-- (backend/app/application/services/recording_retention_cleanup.py).
pub mod Cleaned
pub mod Record
pub mod Once
use ai_meeting_copilot.Prelude.{
  ℕ, Bool, true, false, not, Option, none, some, List, [], ◌∷◌, arith, if◌then◌else◌, raise_if,
  Error, application_validation, recording_segment_not_found, recording_key_not_found,
  cancelled_error, err, ok, DateTime, is_utc,
}
use ai_meeting_copilot.Recording.Metadata.{
  RecordingMetadataRecord, FailureCode, storage_delete_failed, key_delete_failed,
  reconciliation_failed,
}
use ai_meeting_copilot.Exec.{lift, attempt, ◌>>=◌, ◌>>◌, try_else, unless_cancelled}
use ai_meeting_copilot.Recording.Deletion.{mark_deleting, mark_deleted, mark_deletion_failed}
use ai_meeting_copilot.Recording.Rows.{list_expired}
use ai_meeting_copilot.Recording.Work.{Resources, Run, external, transit, delete_key_of}
use ai_meeting_copilot.Recording.CleanupResult.{
  RecordingCleanupItemResult, RecordingCleanupResult, from_items, item_of, deleted, failed, missing,
}

module _ {W : Type 0} (R : Resources W) where
  -- `_mark_failure`
  unfoldable pub mark_failure_quietly : ℕ → FailureCode → Run W (Unit {0})
  mark_failure_quietly id code =
      attempt (transit R id (λ r. mark_deletion_failed r code) >> lift (ok tt))
        (unless_cancelled (lift (ok tt)))

  abbrev pub fail : ℕ → FailureCode → Run W RecordingCleanupItemResult
  fail id code = mark_failure_quietly id code >> lift (item_of id failed)

  abbrev pub finish_item :
      ℕ → Bool → Option RecordingMetadataRecord → Run W RecordingCleanupItemResult
  finish_item id storage_gone none = lift (item_of id missing)
  finish_item id storage_gone (some r) =
      lift (item_of id (if storage_gone then missing else deleted))

  -- `_mark_deleted`, and the statements behind it
  abbrev pub finalize_item : ℕ → DateTime → Bool → Run W RecordingCleanupItemResult
  finalize_item id now storage_gone =
      try_else (transit R id (λ r. mark_deleted r now))
        (unless_cancelled (fail id reconciliation_failed)) (finish_item id storage_gone)

  abbrev pub key_failed :
      ℕ → Run W RecordingCleanupItemResult → Error → Run W RecordingCleanupItemResult
  key_failed id rest cancelled_error = lift (err cancelled_error)
  key_failed id rest recording_key_not_found = rest
  key_failed id rest _ = fail id key_delete_failed

  abbrev pub cleanup_key :
      ℕ → DateTime → RecordingMetadataRecord → Bool → Run W RecordingCleanupItemResult
  cleanup_key id now r storage_gone =
      try_else (delete_key_of R r) (key_failed id (finalize_item id now storage_gone))
        (λ _. finalize_item id now storage_gone)

  abbrev pub storage_failed_as :
      ℕ → Run W RecordingCleanupItemResult → Error → Run W RecordingCleanupItemResult
  storage_failed_as id rest cancelled_error = lift (err cancelled_error)
  storage_failed_as id rest recording_segment_not_found = rest
  storage_failed_as id rest _ = fail id storage_delete_failed

  abbrev pub cleanup_found :
      ℕ → DateTime → Option RecordingMetadataRecord → Run W RecordingCleanupItemResult
  cleanup_found id now none = lift (item_of id missing)
  cleanup_found id now (some r) =
      try_else (external (R.delete_recording id)) (storage_failed_as id (cleanup_key id now r true))
        (λ _. cleanup_key id now r false)

  -- `_cleanup_record`
  unfoldable pub cleanup_record : DateTime → ℕ → Run W RecordingCleanupItemResult
  cleanup_record now id =
      try_else (transit R id mark_deleting) (unless_cancelled (fail id reconciliation_failed))
        (cleanup_found id now)

  -- The loop of `run_once`.
  unfoldable pub cleanup_all :
      DateTime → List RecordingMetadataRecord → Run W (List RecordingCleanupItemResult)
  cleanup_all now [] = lift (ok [])
  cleanup_all now (r ∷ rs) = do
    item ← cleanup_record now r.metadata.recording_id
    items ← cleanup_all now rs
    lift (ok (item ∷ items))

  -- `run_once`, at the time of the clock
  unfoldable pub run_once : DateTime → Run W RecordingCleanupResult
  run_once now = do
    lift (raise_if (not (is_utc now)) application_validation)
    external R.query
    items ← (λ s. cleanup_all now (list_expired now s.now.rows) s)
    lift (from_items items)
