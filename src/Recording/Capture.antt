-- ===== src/Recording/Capture.antt =====
-- The life of a recording up to its end: prepared, started, finalized or failed
-- (prepare_recording_session.py, mark_recording_started.py, finalize_recording.py and
-- mark_recording_failed.py of backend/app/application/use_cases, and the commands of
-- backend/app/application/dto/recordings/recording_session.py). A use case takes the record that
-- its unit of work reads and returns the one that it saves.
pub mod Prepared
pub mod Outcomes
use ai_meeting_copilot.Prelude.{
  ℕ, ◌+◌, ◌*◌, ◌/◌, Bool, true, false, not, ◌&&◌, Option, none, some, List, arith, leb, ◌==◌,
  if◌then◌else◌, length, ◌>>=◌, ◌>>◌, raise_if, invalid_state_transition, application_validation,
  lookup_error, Result, err, ok, is_utc, pos, negsuc, DateTime, Text, codes,
}
use ai_meeting_copilot.Meeting.{is_active as is_active_status, MeetingStatus}
use ai_meeting_copilot.Recording.Metadata.{
  is_deleted, is_manual, metadata_post_init, record_post_init, is_playback_supported, expiry,
  RecordingState, pending, recording, completed, failed, RecordingDeletionStatus, not_scheduled,
  scheduled, wav_pcm16_mono_16khz_segmented_v1, RecordingRetentionPolicy, FailureCode,
  storage_delete_failed, key_delete_failed, storage_missing, key_missing, reconciliation_failed,
  capture_failed, encryption_failed, finalization_failed, interrupted, storage_failed,
  writer_failed, blank, other, Seconds, nanoseconds, not_finite, RecordingMetadata,
  RecordingMetadataRecord,
}
use ai_meeting_copilot.Recording.Deletion.{rebuild, is_active}
use ai_meeting_copilot.Recording.Timing.{
  total_samples_for_contiguous_timing, RecordingSegmentTiming,
}

abbrev pub is_pending : RecordingState → Bool
is_pending pending = true
is_pending _ = false

abbrev pub is_failed : RecordingState → Bool
is_failed RecordingState.failed = true
is_failed _ = false

pub record PrepareRecordingSessionCommand : Type 0 where
  pub meeting_id : ℕ
  pub recording_enabled : Bool
  pub retention_policy : RecordingRetentionPolicy
  pub consent_confirmed : Bool
  pub consent_confirmed_at : Option DateTime
  pub protected : Bool

-- The test of the consent in `PrepareRecordingSessionCommand.__post_init__`.
abbrev pub is_consent : Bool → Option DateTime → Bool
is_consent true none = false
is_consent true (some t) = is_utc t
is_consent false none = true
is_consent false (some t) = false

-- `PrepareRecordingSessionCommand.__post_init__`
unfoldable pub prepare_command_post_init :
    PrepareRecordingSessionCommand → Result PrepareRecordingSessionCommand
prepare_command_post_init c = do
  raise_if (not (is_consent c.consent_confirmed c.consent_confirmed_at)) application_validation
  raise_if (c.recording_enabled && not c.consent_confirmed) application_validation
  ok c

-- `existing is not None and existing.metadata.state is not RecordingState.DELETED`
abbrev pub is_taken : Option RecordingMetadataRecord → Bool
is_taken none = false
is_taken (some r) = not (is_deleted r.metadata.state)

-- `meeting is None` raises first.
abbrev pub is_active_meeting : Option MeetingStatus → Result (Unit {0})
is_active_meeting none = err lookup_error
is_active_meeting (some s) = raise_if (not (is_active_status s)) invalid_state_transition

-- The status of the deletion for a new recording.
abbrev pub first_status : RecordingRetentionPolicy → RecordingDeletionStatus
first_status policy = if is_manual policy then not_scheduled else scheduled

abbrev pub prepared_metadata :
    PrepareRecordingSessionCommand → DateTime → ℕ → Option DateTime → RecordingMetadata
prepared_metadata c now id expires = record {
  recording_id = id;
  meeting_id = c.meeting_id;
  state = pending;
  retention_policy = c.retention_policy;
  created_at = now;
  expires_at = expires;
  capture_anchor_utc = none;
  duration_seconds = none;
  protected = c.protected;
  consent_confirmed = c.consent_confirmed;
  consent_confirmed_at = c.consent_confirmed_at;
  deletion_status = first_status c.retention_policy;
  deleted_at = none;
  encryption_format_version = 1;
  container_format = wav_pcm16_mono_16khz_segmented_v1;
  segment_count = 0;
  has_gaps = false;
}

-- `PrepareRecordingSessionUseCase.execute` up to the save: from the clock, the status of the
-- meeting, its recording, both values of the factory and what the key store returns, to the
-- record that is saved, or none if recording is not enabled.
unfoldable pub prepare_recording_session :
    PrepareRecordingSessionCommand
    → DateTime
    → Option MeetingStatus
    → Option RecordingMetadataRecord
    → ℕ
    → Result Text
    → Text
    → Result (Option RecordingMetadataRecord)
prepare_recording_session c now meeting existing id key token =
    if not c.recording_enabled then ok none else (do
      raise_if (not (is_utc now)) application_validation
      is_active_meeting meeting
      raise_if (is_taken existing) invalid_state_transition
      reference ← key
      expires ← expiry c.retention_policy now
      m ← metadata_post_init (prepared_metadata c now id expires)
      r ← record_post_init (record {
        metadata = m;
        storage_directory_token = token;
        key_reference = reference;
        current_segment_index = 0;
        failure_code = none;
      })
      ok (some r))

-- `MarkRecordingStartedUseCase.execute`, for a command with its capture anchor.
unfoldable pub mark_recording_started :
    DateTime → Option RecordingMetadataRecord → Result RecordingMetadataRecord
mark_recording_started anchor none = err lookup_error
mark_recording_started anchor (some r) = do
  let m = r.metadata
  let started = record m { state = RecordingState.recording; capture_anchor_utc = some anchor }
  raise_if (not (is_pending m.state)) invalid_state_transition
  raise_if (not m.consent_confirmed) invalid_state_transition
  rebuild r started r.failure_code

-- The failure codes by number, to compare them.
abbrev pub code_index : FailureCode → ℕ
code_index storage_delete_failed = 0
code_index key_delete_failed = 1
code_index storage_missing = 2
code_index key_missing = 3
code_index reconciliation_failed = 4
code_index capture_failed = 5
code_index encryption_failed = 6
code_index finalization_failed = 7
code_index interrupted = 8
code_index storage_failed = 9
code_index writer_failed = 10
code_index blank = 11
code_index (other n) = n + 12

-- `record.failure_code == command.failure_code`
abbrev pub same_code : Option FailureCode → FailureCode → Bool
same_code none d = false
same_code (some c) d = code_index c == code_index d

-- `MarkRecordingFailedUseCase.execute`; none if it saves nothing.
unfoldable pub mark_recording_failed :
    FailureCode → Option RecordingMetadataRecord → Result (Option RecordingMetadataRecord)
mark_recording_failed code none = err lookup_error
mark_recording_failed code (some r) = do
  let m = r.metadata
  raise_if (is_deleted m.state) invalid_state_transition
  (if is_failed m.state && same_code r.failure_code code
      then ok none
      else (rebuild r (record m { state = RecordingState.failed }) (some code) >>= λ r'.
          ok (some r')))

pub record FinalizeRecordingCommand : Type 0 where
  pub recording_id : ℕ
  pub duration_seconds : Seconds
  pub segment_count : ℕ
  pub has_gaps : Bool

-- `isclose(seconds, duration, rel_tol=0.0, abs_tol=1e-6)`, in nanoseconds.
abbrev pub is_close : Seconds → ℕ → Bool
is_close (nanoseconds (pos n)) duration = leb n (duration + 1000) && leb duration (n + 1000)
is_close (nanoseconds (negsuc n)) duration = leb (duration + n + 1) 1000
is_close not_finite duration = false

-- `total_samples / RECORDING_PLAYBACK_SAMPLE_RATE_HZ`, in nanoseconds.
abbrev pub duration_of : ℕ → ℕ
duration_of n = n * 62500

abbrev pub completed_metadata : RecordingMetadata → Seconds → ℕ → Bool → RecordingMetadata
completed_metadata m seconds count gaps = record m {
  state = completed;
  duration_seconds = some seconds;
  segment_count = count;
  has_gaps = gaps;
}

-- `FinalizeRecordingUseCase.execute`, with the timing rows of the recording.
unfoldable pub finalize_recording :
    FinalizeRecordingCommand
    → List RecordingSegmentTiming
    → Option RecordingMetadataRecord
    → Result RecordingMetadataRecord
finalize_recording c ts none = err lookup_error
finalize_recording c ts (some r) = do
  let m = r.metadata
  raise_if (not (is_active m.state)) invalid_state_transition
  (if is_playback_supported m.container_format
      then (do
        total ← total_samples_for_contiguous_timing c.recording_id ts
        let duration = duration_of total
        raise_if (not (c.segment_count == length ts && is_close c.duration_seconds duration))
            application_validation
        let seconds = nanoseconds (pos duration)
        rebuild r (completed_metadata m seconds (length ts) c.has_gaps) r.failure_code)
      else rebuild r (completed_metadata m c.duration_seconds c.segment_count c.has_gaps)
          r.failure_code)
