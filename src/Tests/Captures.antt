-- ===== src/Tests/Captures.antt =====
-- The theorems about the capture and the retention of a recording at concrete inputs.
use ai_meeting_copilot.Prelude.{◌≡◌, refl, true, false, none, some, arith, is_space, ok, pos, codes}
use ai_meeting_copilot.Meeting.{active}
use ai_meeting_copilot.Recording.Metadata.{
  metadata_post_init, RecordingState, pending, completed, not_scheduled, thirty_days, manual,
  nanoseconds, RecordingMetadataRecord,
}
use ai_meeting_copilot.Recording.Validity.{metadata_post_init-ok_iff}
use ai_meeting_copilot.Recording.Stored.{IsStored, SameRecording}
use ai_meeting_copilot.Recording.Expiry.{IsExpiry}
use ai_meeting_copilot.Recording.Seek.{is_playable}
use ai_meeting_copilot.Recording.Capture.{
  prepare_command_post_init, prepare_recording_session, mark_recording_started, completed_metadata,
  finalize_recording, PrepareRecordingSessionCommand, FinalizeRecordingCommand,
}
use ai_meeting_copilot.Recording.Capture.Prepared.{prepare_recording_session-starts}
use ai_meeting_copilot.Recording.Capture.Outcomes.{finalize_recording-IsStored}
use ai_meeting_copilot.Recording.Retention.{update_audio_retention}
use ai_meeting_copilot.Recording.Retention.Updated.{update_audio_retention-IsStored}
use ai_meeting_copilot.Tests.Recordings.{at, stored, capturing, stored-IsStored}
use ai_meeting_copilot.Tests.Seeks.{timeline, timeline-Contiguous}

capturing-IsStored : IsStored capturing
unfolding is_space metadata_post_init
capturing-IsStored = record {
  named = refl;
  valid = (metadata_post_init-ok_iff capturing.metadata).0 refl;
}

abbrev request : PrepareRecordingSessionCommand
request = record {
  meeting_id = 1;
  recording_enabled = true;
  retention_policy = thirty_days;
  consent_confirmed = true;
  consent_confirmed_at = some (at 900);
  protected = false;
}

prepare_recording_session-starts_example :
    (r : RecordingMetadataRecord) × (r' : RecordingMetadataRecord) × (prepare_recording_session
        request
        (at 1000)
        (some active)
        none
        7
        (ok (codes "key"))
        (codes "token")
      ≡ ok (some r))
    × IsStored r
    × (r.metadata.state ≡ pending)
    × (mark_recording_started (at 1010) (some r) ≡ ok r')
    × IsStored r'
    × SameRecording r r'
    × (r'.metadata.state ≡ RecordingState.recording)
unfolding prepare_command_post_init is_space
prepare_recording_session-starts_example =
    prepare_recording_session-starts request (at 1000) (at 1010) none 7 (codes "key")
      (codes "token") refl refl refl refl refl refl refl

abbrev report : FinalizeRecordingCommand
report = record {
  recording_id = 7;
  duration_seconds = nanoseconds (pos 5006250300);
  segment_count = 2;
  has_gaps = false;
}

finalize_recording-IsStored_example :
    (r' : RecordingMetadataRecord) × (finalize_recording report timeline (some capturing) ≡ ok r')
    × IsStored r'
    × SameRecording capturing r'
    × (is_playable r'.metadata ≡ true)
    × (r'.metadata.duration_seconds ≡ some (nanoseconds (pos 5006250000)))
    × (r'.metadata.segment_count ≡ 2)
finalize_recording-IsStored_example =
    finalize_recording-IsStored report timeline capturing capturing-IsStored refl refl refl
      (λ e. cc) timeline-Contiguous refl refl

abbrev done : RecordingMetadataRecord
done = record capturing {
  metadata = completed_metadata capturing.metadata (nanoseconds (pos 5006250000)) 2 false;
}

update_audio_retention-IsStored_example :
    (r' : RecordingMetadataRecord) × (update_audio_retention manual true (at 3000) (some stored)
      ≡ ok r')
    × IsStored r'
    × (r'.metadata.state ≡ completed)
    × (r'.metadata.consent_confirmed ≡ true)
    × (r'.metadata.retention_policy ≡ manual)
    × (r'.metadata.protected ≡ true)
    × (r'.metadata.deletion_status ≡ not_scheduled)
    × IsExpiry manual (at 3000) r'.metadata.expires_at
update_audio_retention-IsStored_example =
    update_audio_retention-IsStored manual true (at 3000) stored stored-IsStored refl refl
      (omega arith)
