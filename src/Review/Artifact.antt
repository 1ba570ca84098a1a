-- ===== src/Review/Artifact.antt =====
-- The content of a review and the artifact that carries it
-- (backend/app/application/dto/meeting_review/review_artifact.py).
use ai_meeting_copilot.Prelude.{
  ℕ, Bool, true, false, not, ◌&&◌, Option, none, some, List, leb, if◌then◌else◌, is_some, all, ◌>>◌,
  raise_if, application_validation, Result, err, ok, DateTime, is_utc, Text, codes, ◌=ᵗ◌,
}
use ai_meeting_copilot.Review.Batcher.{not_blank}

pub data MeetingReviewArtifactStatus : Type 0 where
  pending processing completed failed cancelled : MeetingReviewArtifactStatus

-- The three codes of `_FAILURE_CODES`, and any other text.
pub data ReviewFailureCode : Type 0 where
  review_provider_failed review_generation_failed review_cancelled : ReviewFailureCode
  other_code : ReviewFailureCode

pub record ReviewActionItem : Type 0 where
  pub text : Text
  pub owner : Option Text
  pub due_date : Option Text

pub record ReviewOpenQuestion : Type 0 where
  pub question : Text

pub record ReviewTechnicalTerm : Type 0 where
  pub term : Text
  pub explanation : Text

pub record ReviewInterviewQuestion : Type 0 where
  pub question : Text
  pub answer_summary : Option Text
  pub evaluation : Option Text
  pub improvement_suggestion : Option Text

pub record ReviewFeedback : Type 0 where
  pub strengths : List Text
  pub improvement_areas : List Text
  pub overall_feedback : Text

pub record MeetingReviewContent : Type 0 where
  pub summary : Text
  pub key_decisions : List Text
  pub action_items : List ReviewActionItem
  pub open_questions : List ReviewOpenQuestion
  pub technical_questions : List ReviewInterviewQuestion
  pub technical_terms : List ReviewTechnicalTerm
  pub feedback : Option ReviewFeedback

pub record MeetingReviewArtifact : Type 0 where
  pub artifact_id : ℕ
  pub meeting_id : ℕ
  pub version : ℕ
  pub review_type : Text
  pub status : MeetingReviewArtifactStatus
  pub created_at : DateTime
  pub completed_at : Option DateTime
  pub source_transcript_count : ℕ
  pub content : Option MeetingReviewContent
  pub provider_name : Text
  pub model_name : Text
  pub prompt_version : Text
  pub schema_version : ℕ
  pub failure_code : Option ReviewFailureCode

abbrev pub interview_review : Text
interview_review = codes "interview_review"

-- `ReviewFeedback.__post_init__`
unfoldable pub feedback_post_init : ReviewFeedback → Result ReviewFeedback
feedback_post_init f =
    if all not_blank f.strengths
      && all not_blank f.improvement_areas
      && not_blank f.overall_feedback
    then ok f
    else err application_validation

-- `MeetingReviewContent.__post_init__`; the checks of types hold of every value here.
unfoldable pub content_post_init : MeetingReviewContent → Result MeetingReviewContent
content_post_init c =
    if not_blank c.summary && all not_blank c.key_decisions
    then ok c
    else err application_validation

abbrev pub is_failure_code : ReviewFailureCode → Bool
is_failure_code other_code = false
is_failure_code _ = true

abbrev pub is_absent_or_code : Option ReviewFailureCode → Bool
is_absent_or_code none = true
is_absent_or_code (some c) = is_failure_code c

abbrev pub is_absent_or_utc_time : Option DateTime → Bool
is_absent_or_utc_time none = true
is_absent_or_utc_time (some t) = is_utc t

-- `_has_valid_general_fields`
unfoldable pub has_valid_general_fields : MeetingReviewArtifact → Bool
has_valid_general_fields a =
    leb 1 a.version
    && a.review_type =ᵗ interview_review
    && is_utc a.created_at
    && is_absent_or_utc_time a.completed_at
    && not_blank a.provider_name
    && not_blank a.model_name
    && not_blank a.prompt_version
    && leb 1 a.schema_version
    && is_absent_or_code a.failure_code

abbrev pub is_none {ℓ} : {A : Type ℓ} → Option A → Bool
is_none o = not (is_some o)

-- `failure_code in {None, "review_cancelled"}`
abbrev is_cancelled_code : Option ReviewFailureCode → Bool
is_cancelled_code none = true
is_cancelled_code (some review_cancelled) = true
is_cancelled_code (some _) = false

abbrev is_some_code : Option ReviewFailureCode → Bool
is_some_code none = false
is_some_code (some c) = is_failure_code c

-- `is_consistent` of `MeetingReviewArtifact.__post_init__`
unfoldable pub is_consistent : MeetingReviewArtifact → Bool
is_consistent a = elim a.status [
  | completed ↦ is_some a.completed_at && is_some a.content && is_none a.failure_code
  | pending ↦ is_none a.completed_at && is_none a.content && is_none a.failure_code
  | processing ↦ is_none a.completed_at && is_none a.content && is_none a.failure_code
  | failed ↦ is_none a.completed_at && is_none a.content && is_some_code a.failure_code
  | cancelled ↦ is_none a.completed_at && is_none a.content && is_cancelled_code a.failure_code
]

-- `MeetingReviewArtifact.__post_init__`
unfoldable pub artifact_post_init : MeetingReviewArtifact → Result MeetingReviewArtifact
artifact_post_init a = do
  raise_if (not (has_valid_general_fields a)) application_validation
  raise_if (not (is_consistent a)) application_validation
  ok a
