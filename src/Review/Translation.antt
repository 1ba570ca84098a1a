-- ===== src/Review/Translation.antt =====
-- Generating the translation of an ended meeting
-- (backend/app/application/use_cases/generate_meeting_translation.py, with the artifact of
-- backend/app/application/dto/meeting_review/translation_artifact.py and its table, of
-- backend/app/infrastructure/persistence/sqlalchemy/meeting_translation_repository.py).
pub mod Execution
pub mod Aligned
pub mod Latest
pub mod Outcomes
pub mod Persisted
pub mod Whole
use ai_meeting_copilot.Prelude.{
  ℕ, max, Bool, true, false, not, ◌&&◌, ◌||◌, Option, none, some, List, [], ◌∷◌, arith, ltb, leb,
  ◌==◌, if◌then◌else◌, is_some, length, application_validation, other_error, Result, err, ok,
  DateTime, is_utc, Text, codes, is_empty, ◌=ᵗ◌,
}
use ai_meeting_copilot.Meeting.{ended}
use ai_meeting_copilot.Review.Table.{find_row, save_row}
use ai_meeting_copilot.Review.Batcher.{TranscriptReadItem, not_blank}
use ai_meeting_copilot.Review.Artifact.{is_absent_or_utc_time, is_none}
use ai_meeting_copilot.Review.Generation.{MeetingDetail, outside}

pub data TranslationArtifactStatus : Type 0 where
  pending processing completed failed cancelled : TranslationArtifactStatus

-- The two codes of `_FAILURE_CODES`, and any other text.
pub data TranslationFailureCode : Type 0 where
  translation_provider_failed translation_cancelled other_code : TranslationFailureCode

pub record TranslationArtifactSegment : Type 0 where
  pub transcript_id : ℕ
  pub source_text : Text
  pub translated_text : Text

pub record MeetingTranslationArtifact : Type 0 where
  pub artifact_id : ℕ
  pub meeting_id : ℕ
  pub version : ℕ
  pub target_language : Text
  pub status : TranslationArtifactStatus
  pub created_at : DateTime
  pub completed_at : Option DateTime
  pub source_transcript_count : ℕ
  pub segments : List TranslationArtifactSegment
  pub provider_name : Text
  pub model_name : Text
  pub prompt_version : Text
  pub schema_version : ℕ
  pub failure_code : Option TranslationFailureCode

abbrev pub target : Text
target = codes "tr"

-- `TranslationArtifactSegment.__post_init__`
unfoldable pub segment_post_init : TranslationArtifactSegment → Result TranslationArtifactSegment
segment_post_init s =
    if not_blank s.source_text && not_blank s.translated_text
    then ok s
    else err application_validation

abbrev pub is_known_code : TranslationFailureCode → Bool
is_known_code TranslationFailureCode.other_code = false
is_known_code _ = true

abbrev pub is_absent_or_known : Option TranslationFailureCode → Bool
is_absent_or_known none = true
is_absent_or_known (some c) = is_known_code c

abbrev pub is_some_known : Option TranslationFailureCode → Bool
is_some_known none = false
is_some_known (some c) = is_known_code c

-- `failure_code in {None, "translation_cancelled"}`
abbrev pub is_cancellation : Option TranslationFailureCode → Bool
is_cancellation none = true
is_cancellation (some translation_cancelled) = true
is_cancellation (some _) = false

-- `len(value) <= 120` of a name that is not blank
abbrev pub is_generation_identifier : Text → Bool
is_generation_identifier t = not_blank t && leb (length t) 120

-- `_has_valid_general_fields`
unfoldable pub has_valid_fields : MeetingTranslationArtifact → Bool
has_valid_fields a =
    leb 1 a.version
    && a.target_language =ᵗ target
    && is_utc a.created_at
    && is_absent_or_utc_time a.completed_at
    && is_generation_identifier a.provider_name
    && is_generation_identifier a.model_name
    && is_generation_identifier a.prompt_version
    && leb 1 a.schema_version
    && is_absent_or_known a.failure_code

-- `is_consistent` of `MeetingTranslationArtifact.__post_init__`
unfoldable pub is_lifecycle_consistent : MeetingTranslationArtifact → Bool
is_lifecycle_consistent a = elim a.status [
  | completed ↦
      is_some a.completed_at
      && is_none a.failure_code
      && (length a.segments == a.source_transcript_count)
  | pending ↦ is_none a.completed_at && is_empty a.segments && is_none a.failure_code
  | processing ↦ is_none a.completed_at && is_empty a.segments && is_none a.failure_code
  | failed ↦ is_none a.completed_at && is_empty a.segments && is_some_known a.failure_code
  | cancelled ↦ is_none a.completed_at && is_empty a.segments && is_cancellation a.failure_code
]

-- `MeetingTranslationArtifact.__post_init__`
unfoldable pub translation_post_init :
    MeetingTranslationArtifact → Result MeetingTranslationArtifact
translation_post_init a =
    if has_valid_fields a
    then if is_lifecycle_consistent a then ok a else err application_validation
    else err application_validation

-- `TranslationRequest` with the languages `de` and `tr`, and its `__post_init__`.
unfoldable pub translation_request : Text → Result Text
translation_request t = if not_blank t then ok t else err application_validation

-- The translation provider and the commit of a unit of work, on a world of the parameter's choice.
pub record TranslationServices (W : Type 0) : Type 0 where
  pub translate : Text → W → Result Text × W
  pub commit : W → Result (Unit {0}) × W

pub record TranslationSettings : Type 0 where
  pub provider_name : Text
  pub model_name : Text
  pub prompt_version : Text
  pub schema_version : ℕ

-- The table of translations, and the world outside.
pub record TranslationDesk (W : Type 0) : Type 0 where
  pub translations : List MeetingTranslationArtifact
  pub world : W

pub record GenerateMeetingTranslationResult : Type 0 where
  pub artifact : MeetingTranslationArtifact
  pub reused_existing : Bool

-- `meeting_translations.get_by_id`
abbrev pub get_translation : ℕ → List MeetingTranslationArtifact → Option MeetingTranslationArtifact
get_translation = find_row (λ a. a.artifact_id)

-- `meeting_translations.save`
abbrev pub save_translation :
    MeetingTranslationArtifact → List MeetingTranslationArtifact → List MeetingTranslationArtifact
save_translation = save_row (λ a. a.artifact_id)

-- `meeting_translations.get_latest_version`
unfoldable pub latest_version : ℕ → List MeetingTranslationArtifact → ℕ
latest_version meeting [] = 0
latest_version meeting (a ∷ rows) =
    let rest = latest_version meeting rows in
    if (a.meeting_id == meeting) && (a.target_language =ᵗ target) then max a.version rest else rest

abbrev pub is_completed_translation : TranslationArtifactStatus → Bool
is_completed_translation completed = true
is_completed_translation _ = false

-- The order of `get_latest_completed`: by time, version and id, the last first.
abbrev pub is_newer : MeetingTranslationArtifact → MeetingTranslationArtifact → Bool
is_newer a b =
    ltb b.created_at.instant a.created_at.instant
    || (b.created_at.instant == a.created_at.instant)
      && (ltb b.version a.version || (b.version == a.version) && ltb b.artifact_id a.artifact_id)

abbrev pub newest :
    MeetingTranslationArtifact
    → Option MeetingTranslationArtifact
    → Option MeetingTranslationArtifact
newest a none = some a
newest a (some b) = if is_newer b a then some b else some a

-- `meeting_translations.get_latest_completed`
unfoldable pub get_latest_completed :
    ℕ → List MeetingTranslationArtifact → Option MeetingTranslationArtifact
get_latest_completed meeting [] = none
get_latest_completed meeting (a ∷ rows) =
    let rest = get_latest_completed meeting rows in
    if (a.meeting_id == meeting) && is_completed_translation a.status then newest a rest else rest

-- `all(… for … in zip(…, strict=True))`, which raises `ValueError` where one list ends first
unfoldable pub all_match : List TranslationArtifactSegment → List TranscriptReadItem → Result Bool
all_match [] [] = ok true
all_match (s ∷ ss) [] = err other_error
all_match [] (t ∷ ts) = err other_error
all_match (s ∷ ss) (t ∷ ts) =
    let rest = all_match ss ts in
    if (s.transcript_id == t.transcript_id) && (s.source_text =ᵗ t.text) then rest else ok false

-- `_can_reuse`
unfoldable pub can_reuse : Option MeetingTranslationArtifact → MeetingDetail → Result Bool
can_reuse none detail = ok false
can_reuse (some a) detail =
    if a.source_transcript_count == length detail.transcript
    then all_match a.segments detail.transcript
    else ok false
