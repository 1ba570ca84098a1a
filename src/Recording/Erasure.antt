-- ===== src/Recording/Erasure.antt =====
-- Deleting the audio of one meeting
-- (backend/app/application/use_cases/delete_meeting_audio.py).
pub mod Erased
pub mod Rewritten
pub mod Removed
use ai_meeting_copilot.Prelude.{
  ℕ, Bool, true, false, not, Option, none, some, arith, if◌then◌else◌, raise_if, Error,
  application_validation, lookup_error, recording_storage_error, recording_segment_not_found,
  recording_key_store_error, recording_key_not_found, cancelled_error, err, ok, DateTime, is_utc,
}
use ai_meeting_copilot.Recording.Metadata.{
  RecordingMetadataRecord, is_deleted, deleted, FailureCode, storage_delete_failed,
  key_delete_failed,
}
use ai_meeting_copilot.Exec.{lift, attempt, ◌>>=◌, ◌>>◌}
use ai_meeting_copilot.Recording.Deletion.{mark_deleting, mark_deleted, mark_deletion_failed}
use ai_meeting_copilot.Recording.Rows.{get_by_meeting_id}
use ai_meeting_copilot.Recording.Work.{
  Resources, Run, external, transit, is_storage_error, is_key_store_error, delete_key_of,
}

-- `DeleteMeetingAudioResult`; its checks hold of the three values that are built below.
pub record DeleteMeetingAudioResult : Type 0 where
  pub meeting_id : ℕ
  pub recording_id : Option ℕ
  pub deleted : Bool
  pub already_absent : Bool

module _ {W : Type 0} (R : Resources W) where
  abbrev pub require_row : Option RecordingMetadataRecord → Run W (Unit {0})
  require_row none = lift (err lookup_error)
  require_row (some r) = lift (ok tt)

  -- `_mark_deleting`
  unfoldable pub mark_row_deleting : RecordingMetadataRecord → Run W (Unit {0})
  mark_row_deleting r = transit R r.metadata.recording_id mark_deleting >>= require_row

  -- `_mark_failure`
  unfoldable pub mark_failure : ℕ → FailureCode → Run W (Unit {0})
  mark_failure id code = transit R id (λ r. mark_deletion_failed r code) >> lift (ok tt)

  -- `_mark_deleted`
  unfoldable pub mark_row_deleted : ℕ → DateTime → Run W (Unit {0})
  mark_row_deleted id now = transit R id (λ r. mark_deleted r now) >> lift (ok tt)

  abbrev pub refuse : {A : Type 0} → ℕ → FailureCode → Error → Run W A
  refuse id code e = mark_failure id code >> lift (err e)

  -- The handlers of `_delete_external`: of the storage call, then of the call of the key store.
  abbrev pub storage_handler : ℕ → Error → Run W (Unit {0})
  storage_handler id cancelled_error = lift (err cancelled_error)
  storage_handler id recording_segment_not_found = lift (ok tt)
  storage_handler id e =
      refuse id storage_delete_failed (if is_storage_error e then e else recording_storage_error)

  abbrev pub key_handler : ℕ → Error → Run W (Unit {0})
  key_handler id cancelled_error = lift (err cancelled_error)
  key_handler id recording_key_not_found = lift (ok tt)
  key_handler id e =
      refuse id key_delete_failed (if is_key_store_error e then e else recording_key_store_error)

  -- `_delete_external`
  unfoldable pub delete_external : RecordingMetadataRecord → Run W (Unit {0})
  delete_external r = do
    let id = r.metadata.recording_id
    attempt (external (R.delete_recording id)) (storage_handler id)
    attempt (delete_key_of R r) (key_handler id)

  abbrev pub absent : ℕ → Option ℕ → DeleteMeetingAudioResult
  absent meeting id = record {
    meeting_id = meeting;
    recording_id = id;
    deleted = false;
    already_absent = true;
  }

  abbrev pub delete_row : ℕ → DateTime → RecordingMetadataRecord → Run W DeleteMeetingAudioResult
  delete_row meeting now r = do
    mark_row_deleting r
    delete_external r
    mark_row_deleted r.metadata.recording_id now
    lift (
        ok (record {
          meeting_id = meeting;
          recording_id = some r.metadata.recording_id;
          deleted = true;
          already_absent = false;
        }))

  abbrev pub delete_found :
      ℕ → DateTime → Option RecordingMetadataRecord → Run W DeleteMeetingAudioResult
  delete_found meeting now none = lift (ok (absent meeting none))
  delete_found meeting now (some r) =
      if is_deleted r.metadata.state
      then lift (ok (absent meeting (some r.metadata.recording_id)))
      else delete_row meeting now r

  -- `execute`, at the time of the clock
  unfoldable pub delete_meeting_audio : DateTime → ℕ → Run W DeleteMeetingAudioResult
  delete_meeting_audio now meeting = do
    lift (raise_if (not (is_utc now)) application_validation)
    external R.query
    (λ s. delete_found meeting now (get_by_meeting_id meeting s.now.rows) s)
