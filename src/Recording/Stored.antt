-- ===== src/Recording/Stored.antt =====
-- A record that both classes of backend/app/application/dto/recordings/recording.py have checked,
-- and a changed copy of it.
use ai_meeting_copilot.Prelude.{
  ℕ, ◌≡◌, refl, ap, ◌≢◌, Bool, true, false, not, Option, some, arith, and_both, and_intro, ok, pos,
  DateTime,
}
use ai_meeting_copilot.Recording.Metadata.{
  is_deleted, is_blank_code, record_check, record_post_init, RecordingState, FailureCode, Seconds,
  nanoseconds, RecordingMetadata, RecordingMetadataRecord,
}
use ai_meeting_copilot.Recording.Validity.{InUtc, metadata_post_init-ok_iff, IsValid}
use ai_meeting_copilot.Recording.Deletion.{rebuild}

-- A record as the repository returns it: both classes have checked it.
pub record IsStored (r : RecordingMetadataRecord) : Type 0 where
  pub named : record_check r ≡ true
  pub valid : IsValid r.metadata

-- Two records of one recording: the fields that no deletion transition may touch.
pub record SameRecording (r r' : RecordingMetadataRecord) : Type 0 where
  pub recording : r'.metadata.recording_id ≡ r.metadata.recording_id
  pub meeting : r'.metadata.meeting_id ≡ r.metadata.meeting_id
  pub created : r'.metadata.created_at ≡ r.metadata.created_at
  pub policy : r'.metadata.retention_policy ≡ r.metadata.retention_policy
  pub token : r'.storage_directory_token ≡ r.storage_directory_token
  pub key : r'.key_reference ≡ r.key_reference
  pub index : r'.current_segment_index ≡ r.current_segment_index

record_check-code :
    (r : RecordingMetadataRecord) (m : RecordingMetadata) (c : Option FailureCode)
    → record_check r ≡ true
    → is_blank_code c ≡ false
    → record_check (record r { metadata = m; failure_code = c }) ≡ true
record_check-code r m c h e =
    let (a, b) = and_both _ _ h in and_intro _ (not (is_blank_code c)) a (rw e)

pub record_check-not_blank :
    (r : RecordingMetadataRecord) → record_check r ≡ true → is_blank_code r.failure_code ≡ false
record_check-not_blank r h = let (a, b) = and_both _ _ h in not_true _ b
  where
    not_true : (b : Bool) → not b ≡ true → b ≡ false
    not_true true e = cc
    not_true false e = refl

pub rebuild-ok :
    (r : RecordingMetadataRecord) (m : RecordingMetadata) (c : Option FailureCode)
    → record_check r ≡ true
    → is_blank_code c ≡ false
    → IsValid m
    → rebuild r m c ≡ ok (record r { metadata = m; failure_code = c })
unfolding rebuild record_post_init
rebuild-ok r m c h e v =
    let built = (metadata_post_init-ok_iff m).1 v in rw built (rw (record_check-code r m c h e))

pub IsStored-rebuilt :
    (r : RecordingMetadataRecord) (m : RecordingMetadata) (c : Option FailureCode)
    → record_check r ≡ true
    → is_blank_code c ≡ false
    → IsValid m
    → IsStored (record r { metadata = m; failure_code = c })
IsStored-rebuilt r m c h e v = record { named = record_check-code r m c h e; valid = v }

pub not_deleted : (s : RecordingState) → is_deleted s ≡ false → s ≢ RecordingState.deleted
not_deleted s h e = cc (ap is_deleted e)

pub deleted_state : (s : RecordingState) → is_deleted s ≡ true → s ≡ RecordingState.deleted
deleted_state s h = ground arith

pub same : (r : RecordingMetadataRecord) → SameRecording r r
same r = record {
  recording = refl;
  meeting = refl;
  created = refl;
  policy = refl;
  token = refl;
  key = refl;
  index = refl;
}

-- A change of the fields that a capture writes keeps the lifecycle rules.
pub moved-IsValid :
    (m : RecordingMetadata) (s : RecordingState) (anchor : Option DateTime) (d : Option Seconds)
    (count : ℕ) (gaps : Bool)
    → IsValid m
    → m.state ≢ RecordingState.deleted
    → s ≢ RecordingState.deleted
    → (s ≡ RecordingState.recording → m.consent_confirmed ≡ true)
    → InUtc anchor
    → ((x : Seconds) → d ≡ some x → (n : ℕ) × (x ≡ nanoseconds (pos n)))
    → IsValid (record m {
      state = s;
      capture_anchor_utc = anchor;
      duration_seconds = d;
      segment_count = count;
      has_gaps = gaps;
    })
moved-IsValid m s anchor d count gaps v before after consent utc seconds = record {
  created_utc = v.created_utc;
  expires_utc = v.expires_utc;
  anchor_utc = utc;
  consent_utc = v.consent_utc;
  deleted_utc = v.deleted_utc;
  duration = seconds;
  version = v.version;
  consent = v.consent;
  recorded = consent;
  kept = v.kept;
  timed = λ p _. v.timed p before;
  erased = λ e. absurd (after e);
  retained = λ _. v.retained before;
}
