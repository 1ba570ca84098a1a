-- ===== src/Tests/Recordings.antt =====
-- The theorems about recording metadata and its deletion at concrete inputs.
use ai_meeting_copilot.Prelude.{
  ℕ, ◌≡◌, refl, ◌↔◌, ◌⊎◌, true, false, none, some, is_space, ok, pos, DateTime, codes,
}
use ai_meeting_copilot.Recording.Metadata.{
  metadata_post_init, RecordingState, completed, RecordingDeletionStatus, scheduled,
  wav_pcm16_mono_16khz_segmented_v1, seven_days, storage_missing, nanoseconds, RecordingMetadata,
  RecordingMetadataRecord,
}
use ai_meeting_copilot.Recording.Validity.{metadata_post_init-ok_iff, IsValid}
use ai_meeting_copilot.Recording.Stored.{IsStored, SameRecording}
use ai_meeting_copilot.Recording.Deletion.{same_time, mark_deleted, mark_storage_missing}
use ai_meeting_copilot.Recording.Deletion.Outcomes.{
  mark_deleted-IsStored, mark_storage_missing-IsStored,
}

abbrev pub at : ℕ → DateTime
at n = record { instant = n; offset = some (pos 0) }

abbrev finished : RecordingMetadata
finished = record {
  recording_id = 7;
  meeting_id = 1;
  state = completed;
  retention_policy = seven_days;
  created_at = at 1000;
  expires_at = some (at 605800);
  capture_anchor_utc = some (at 1010);
  duration_seconds = some (nanoseconds (pos 5000000000));
  protected = false;
  consent_confirmed = true;
  consent_confirmed_at = some (at 1005);
  deletion_status = scheduled;
  deleted_at = none;
  encryption_format_version = 1;
  container_format = wav_pcm16_mono_16khz_segmented_v1;
  segment_count = 2;
  has_gaps = false;
}

abbrev pub stored : RecordingMetadataRecord
stored = record {
  metadata = finished;
  storage_directory_token = codes "token";
  key_reference = codes "key";
  current_segment_index = 2;
  failure_code = none;
}

abbrev pub capturing : RecordingMetadataRecord
capturing = record stored { metadata = record finished { state = RecordingState.recording } }

pub stored-IsStored : IsStored stored
unfolding is_space metadata_post_init
stored-IsStored = record { named = refl; valid = (metadata_post_init-ok_iff finished).0 refl }

metadata_post_init-ok_iff_example : (metadata_post_init finished ≡ ok finished) ↔ IsValid finished
metadata_post_init-ok_iff_example = metadata_post_init-ok_iff finished

mark_deleted-IsStored_example :
    (r' : RecordingMetadataRecord) × (mark_deleted stored (at 2000) ≡ ok r')
    × IsStored r'
    × SameRecording stored r'
    × (r'.metadata.state ≡ RecordingState.deleted)
    × (r'.metadata.deletion_status ≡ RecordingDeletionStatus.deleted)
    × (same_time r'.metadata.deleted_at (at 2000) ≡ true)
mark_deleted-IsStored_example = mark_deleted-IsStored stored (at 2000) stored-IsStored refl refl

mark_storage_missing-IsStored_example :
    (r' : RecordingMetadataRecord) × (mark_storage_missing stored ≡ ok r')
    × IsStored r'
    × SameRecording stored r'
    × ((completed ≡ RecordingState.deleted) × (r' ≡ stored)
        ⊎ (r'.metadata.state ≡ RecordingState.missing) × (r'.failure_code ≡ some storage_missing))
mark_storage_missing-IsStored_example = mark_storage_missing-IsStored stored stored-IsStored refl
