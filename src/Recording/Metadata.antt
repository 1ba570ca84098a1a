-- ===== src/Recording/Metadata.antt =====
-- Recording metadata and its checks at construction
-- (backend/app/application/dto/recordings/recording.py and retention.py).
use ai_meeting_copilot.Prelude.{
  ℕ, ◌+◌, ◌*◌, Bool, true, false, not, ◌&&◌, ◌||◌, Option, none, some, leb, ◌==◌, if◌then◌else◌,
  is_some, ◌>>◌, raise_if, application_validation, Result, ok, err, is_utc, ℤ, pos, negsuc,
  DateTime, Text, is_blank,
}

pub data RecordingState : Type 0 where
  pending recording finalizing completed incomplete failed deleted missing : RecordingState

pub data RecordingDeletionStatus : Type 0 where
  not_scheduled scheduled deleting deleted failed : RecordingDeletionStatus

pub data RecordingMediaFormat : Type 0 where
  legacy_m4a wav_pcm16_mono_16khz_segmented_v1 : RecordingMediaFormat

pub data RecordingRetentionPolicy : Type 0 where
  one_day seven_days thirty_days manual : RecordingRetentionPolicy

-- The failure codes of the two closed sets, and any other text, blank or not.
pub data FailureCode : Type 0 where
  storage_delete_failed key_delete_failed storage_missing key_missing : FailureCode
  reconciliation_failed : FailureCode
  capture_failed encryption_failed finalization_failed interrupted : FailureCode
  storage_failed writer_failed : FailureCode
  blank : FailureCode
  other : ℕ → FailureCode

-- A float of seconds: a number of nanoseconds, or not finite.
pub data Seconds : Type 0 where
  nanoseconds : ℤ → Seconds
  not_finite : Seconds

pub record RecordingMetadata : Type 0 where
  pub recording_id : ℕ
  pub meeting_id : ℕ
  pub state : RecordingState
  pub retention_policy : RecordingRetentionPolicy
  pub created_at : DateTime
  pub expires_at : Option DateTime
  pub capture_anchor_utc : Option DateTime
  pub duration_seconds : Option Seconds
  pub protected : Bool
  pub consent_confirmed : Bool
  pub consent_confirmed_at : Option DateTime
  pub deletion_status : RecordingDeletionStatus
  pub deleted_at : Option DateTime
  pub encryption_format_version : ℕ
  pub container_format : RecordingMediaFormat
  pub segment_count : ℕ
  pub has_gaps : Bool

pub record RecordingMetadataRecord : Type 0 where
  pub metadata : RecordingMetadata
  pub storage_directory_token : Text
  pub key_reference : Text
  pub current_segment_index : ℕ
  pub failure_code : Option FailureCode

-- `state is RecordingState.DELETED`, and so on.
abbrev pub is_deleted : RecordingState → Bool
is_deleted RecordingState.deleted = true
is_deleted _ = false

abbrev pub is_recording : RecordingState → Bool
is_recording RecordingState.recording = true
is_recording _ = false

abbrev pub is_completed : RecordingState → Bool
is_completed RecordingState.completed = true
is_completed _ = false

abbrev pub is_deleted_status : RecordingDeletionStatus → Bool
is_deleted_status RecordingDeletionStatus.deleted = true
is_deleted_status _ = false

abbrev pub is_manual : RecordingRetentionPolicy → Bool
is_manual RecordingRetentionPolicy.manual = true
is_manual _ = false

-- not (`value is not None and value is not UTC`)
abbrev pub is_absent_or_utc : Option DateTime → Bool
is_absent_or_utc none = true
is_absent_or_utc (some t) = is_utc t

abbrev pub is_valid_seconds : Seconds → Bool
is_valid_seconds (nanoseconds (pos n)) = true
is_valid_seconds (nanoseconds (negsuc n)) = false
is_valid_seconds not_finite = false

abbrev pub is_valid_duration : Option Seconds → Bool
is_valid_duration none = true
is_valid_duration (some s) = is_valid_seconds s

-- `a == b` of two Booleans
abbrev pub same_bool : Bool → Bool → Bool
same_bool true b = b
same_bool false b = not b

-- not (`expires_at is None or expires_at <= created_at`)
abbrev pub expires_after : Option DateTime → DateTime → Bool
expires_after none t = false
expires_after (some e) t = not (leb e.instant t.instant)

-- The checks of `RecordingMetadata.__post_init__`, in its order. Each raises the same exception.
abbrev pub times_check : RecordingMetadata → Bool
times_check m =
    is_utc m.created_at
    && is_absent_or_utc m.expires_at
    && is_absent_or_utc m.capture_anchor_utc
    && is_absent_or_utc m.consent_confirmed_at
    && is_absent_or_utc m.deleted_at

abbrev pub consent_check : Bool → Option DateTime → Bool
consent_check confirmed at = same_bool confirmed (is_some at)

abbrev pub recording_check : RecordingState → Bool → Bool
recording_check s confirmed = not (is_recording s && not confirmed)

abbrev pub expiry_check :
    RecordingRetentionPolicy → RecordingState → Option DateTime → DateTime → Bool
expiry_check policy s expires created =
    if is_manual policy
    then not (is_some expires)
    else not (not (is_deleted s) && not (expires_after expires created))

abbrev pub deletion_check : RecordingState → RecordingDeletionStatus → Option DateTime → Bool
deletion_check s status at =
    if is_deleted s
    then not (not (is_deleted_status status) || not (is_some at))
    else not (is_deleted_status status)

abbrev pub metadata_check : RecordingMetadata → Bool
metadata_check m =
    times_check m
    && is_valid_duration m.duration_seconds
    && not (m.encryption_format_version == 0)
    && consent_check m.consent_confirmed m.consent_confirmed_at
    && recording_check m.state m.consent_confirmed
    && expiry_check m.retention_policy m.state m.expires_at m.created_at
    && deletion_check m.state m.deletion_status m.deleted_at

-- `RecordingMetadata.__post_init__`: the value that was built, or the exception.
unfoldable pub metadata_post_init : RecordingMetadata → Result RecordingMetadata
metadata_post_init m = if metadata_check m then ok m else err application_validation

abbrev pub is_blank_code : Option FailureCode → Bool
is_blank_code (some blank) = true
is_blank_code _ = false

abbrev pub record_check : RecordingMetadataRecord → Bool
record_check r =
    not (is_blank r.storage_directory_token)
    && not (is_blank r.key_reference)
    && not (is_blank_code r.failure_code)

-- `RecordingMetadataRecord.__post_init__`
unfoldable pub record_post_init : RecordingMetadataRecord → Result RecordingMetadataRecord
record_post_init r = if record_check r then ok r else err application_validation

-- `RecordingMediaFormat.is_playback_supported`
abbrev pub is_playback_supported : RecordingMediaFormat → Bool
is_playback_supported legacy_m4a = false
is_playback_supported wav_pcm16_mono_16khz_segmented_v1 = true

abbrev pub microseconds_per_day : ℕ
microseconds_per_day = 86400000000

abbrev days_of : RecordingRetentionPolicy → Option ℕ
days_of one_day = some 1
days_of seven_days = some 7
days_of thirty_days = some 30
days_of manual = none

-- `RecordingRetentionPolicy.expires_at`
unfoldable pub expiry : RecordingRetentionPolicy → DateTime → Result (Option DateTime)
expiry policy created_at = do
  raise_if (not (is_utc created_at)) application_validation
  elim (days_of policy) [
    | none ↦ ok none
    | some days ↦
        ok (some (record created_at { instant = created_at.instant + days * microseconds_per_day }))
  ]
