-- ===== src/Recording/Retention.antt =====
-- Changing the retention of a recording
-- (backend/app/application/use_cases/update_audio_retention.py).
pub mod Updated
use ai_meeting_copilot.Prelude.{
  Bool, true, false, not, ◌&&◌, ◌||◌, Option, none, some, arith, if◌then◌else◌, ◌>>=◌, ◌>>◌,
  raise_if, invalid_state_transition, application_validation, lookup_error, Result, err, is_utc,
  DateTime, codes,
}
use ai_meeting_copilot.Recording.Metadata.{
  is_deleted, is_manual, expiry, recording, failed, RecordingDeletionStatus, not_scheduled,
  scheduled, RecordingRetentionPolicy, FailureCode, RecordingMetadataRecord,
}
use ai_meeting_copilot.Recording.Deletion.{rebuild, is_approved}

-- `_deletion_status`
abbrev pub deletion_status_for : RecordingRetentionPolicy → Bool → RecordingDeletionStatus
deletion_status_for policy protected =
    if protected || is_manual policy then not_scheduled else scheduled

-- `deletion_status is RecordingDeletionStatus.FAILED`
abbrev pub is_failed_status : RecordingDeletionStatus → Bool
is_failed_status RecordingDeletionStatus.failed = true
is_failed_status _ = false

-- `failure_code in _SCHEDULING_FAILURE_CODES`, which are the approved codes of a deletion.
abbrev pub is_scheduling_code : Option FailureCode → Bool
is_scheduling_code none = false
is_scheduling_code (some c) = is_approved c

-- The failure code that is kept.
abbrev pub kept_code : RecordingMetadataRecord → Option FailureCode
kept_code r =
    if is_failed_status r.metadata.deletion_status && is_scheduling_code r.failure_code
    then none
    else r.failure_code

-- `UpdateAudioRetentionUseCase.execute`, from the clock and the record of the meeting to the
-- record that is saved.
unfoldable pub update_audio_retention :
    RecordingRetentionPolicy
    → Bool
    → DateTime
    → Option RecordingMetadataRecord
    → Result RecordingMetadataRecord
update_audio_retention policy protected now none = do
  raise_if (not (is_utc now)) application_validation
  err lookup_error
update_audio_retention policy protected now (some r) = do
  raise_if (not (is_utc now)) application_validation
  raise_if (is_deleted r.metadata.state) invalid_state_transition
  expires ← expiry policy now
  rebuild r
      (record r.metadata {
        retention_policy = policy;
        expires_at = expires;
        protected = protected;
        deletion_status = deletion_status_for policy protected;
      })
      (kept_code r)
