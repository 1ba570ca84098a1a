-- ===== src/Recording/Deletion.antt =====
-- The pure transitions of the deletion metadata
-- (backend/app/application/services/recording_deletion_state.py). `dataclasses.replace` builds a
-- new value, so each transition runs the checks of both classes again.
pub mod Outcomes
use ai_meeting_copilot.Prelude.{
  Bool, true, false, not, ◌&&◌, Option, none, some, arith, ◌==◌, if◌then◌else◌, ◌>>=◌, ◌>>◌,
  raise_if, invalid_state_transition, application_validation, Result, ok, is_utc, DateTime,
}
use ai_meeting_copilot.Recording.Metadata.{
  is_deleted, metadata_post_init, record_post_init, RecordingState, recording, finalizing, failed,
  deleted, missing, RecordingDeletionStatus, deleting, FailureCode, storage_delete_failed,
  key_delete_failed, storage_missing, key_missing, reconciliation_failed, RecordingMetadata,
  RecordingMetadataRecord,
}

-- `replace(record, metadata=replace(record.metadata, …), failure_code=…)`
unfoldable pub rebuild :
    RecordingMetadataRecord
    → RecordingMetadata
    → Option FailureCode
    → Result RecordingMetadataRecord
rebuild r m code = do
  m' ← metadata_post_init m
  record_post_init (record r { metadata = m'; failure_code = code })

-- `_ACTIVE_STATES`
abbrev pub is_active : RecordingState → Bool
is_active RecordingState.recording = true
is_active RecordingState.finalizing = true
is_active _ = false

abbrev pub reject_active : RecordingMetadataRecord → Result (Unit {0})
reject_active r = raise_if (is_active r.metadata.state) invalid_state_transition

-- `failure_code in _APPROVED_FAILURE_CODES`
abbrev pub is_approved : FailureCode → Bool
is_approved storage_delete_failed = true
is_approved key_delete_failed = true
is_approved storage_missing = true
is_approved key_missing = true
is_approved reconciliation_failed = true
is_approved _ = false

unfoldable pub mark_deleting : RecordingMetadataRecord → Result RecordingMetadataRecord
mark_deleting r = do
  reject_active r
  let m = r.metadata
  let marked = record m { deletion_status = RecordingDeletionStatus.deleting }
  (if is_deleted m.state then ok r else rebuild r marked r.failure_code)

-- `metadata.deleted_at == deleted_at`; two aware values are equal if their instants are.
abbrev pub same_time : Option DateTime → DateTime → Bool
same_time none t = false
same_time (some s) t = s.instant == t.instant

-- The metadata of a recording whose storage and key are gone.
abbrev pub erased_metadata : RecordingMetadata → DateTime → RecordingMetadata
erased_metadata m t = record m {
  state = RecordingState.deleted;
  deletion_status = RecordingDeletionStatus.deleted;
  deleted_at = some t;
  expires_at = none;
  protected = false;
}

unfoldable pub mark_deleted : RecordingMetadataRecord → DateTime → Result RecordingMetadataRecord
mark_deleted r t = do
  raise_if (not (is_utc t)) application_validation
  reject_active r
  let m = r.metadata
  (if is_deleted m.state && same_time m.deleted_at t
      then ok r
      else rebuild r (erased_metadata m t) none)

unfoldable pub mark_deletion_failed :
    RecordingMetadataRecord → FailureCode → Result RecordingMetadataRecord
mark_deletion_failed r code = do
  raise_if (not (is_approved code)) application_validation
  raise_if (is_deleted r.metadata.state) invalid_state_transition
  let m = r.metadata
  rebuild r (record m { deletion_status = RecordingDeletionStatus.failed }) (some code)

unfoldable pub mark_storage_missing : RecordingMetadataRecord → Result RecordingMetadataRecord
mark_storage_missing r = do
  reject_active r
  let m = r.metadata
  let status = RecordingDeletionStatus.failed
  let marked = record m { state = RecordingState.missing; deletion_status = status }
  (if is_deleted m.state then ok r else rebuild r marked (some storage_missing))
