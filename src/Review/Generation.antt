-- ===== src/Review/Generation.antt =====
-- Generating the review of an ended meeting
-- (backend/app/application/use_cases/generate_meeting_review.py, and the requests of
-- backend/app/application/dto/meeting_review/review_generation.py).
pub mod Kept
pub mod Outcomes
pub mod Whole
use ai_meeting_copilot.Prelude.{
  ℕ, ◌+◌, max, Bool, true, false, ◌&&◌, Option, none, some, List, [], ◌∷◌, arith, ◌==◌,
  if◌then◌else◌, is_some, length, Error, invalid_state_transition, application_validation,
  lookup_error, cancelled_error, provider_error, Result, err, ok, DateTime, Text, codes, is_empty,
  ◌=ᵗ◌,
}
use ai_meeting_copilot.Exec.{Exec, lift, attempt, ◌>>=◌, ◌>>◌, try_else, unless_cancelled}
use ai_meeting_copilot.Meeting.{MeetingStatus, ended}
use ai_meeting_copilot.Review.Table.{find_row, save_row}
use ai_meeting_copilot.Review.Batcher.{TranscriptReadItem, TranscriptReviewBatch, build_batches}
use ai_meeting_copilot.Review.Artifact.{
  MeetingReviewContent, MeetingReviewArtifact, interview_review, content_post_init, is_none,
  artifact_post_init, MeetingReviewArtifactStatus, cancelled, ReviewFailureCode,
  review_provider_failed, review_cancelled,
}
use ai_meeting_copilot.Review.Merger.{BatchReviewResult, merge}

pub data MeetingReviewGenerationStage : Type 0 where
  batch_stage reduce_stage : MeetingReviewGenerationStage

pub record MeetingReviewGenerationRequest : Type 0 where
  pub meeting_id : ℕ
  pub stage : MeetingReviewGenerationStage
  pub batch : Option TranscriptReviewBatch
  pub intermediate_content : Option MeetingReviewContent

-- `MeetingReviewGenerationRequest.__post_init__`
unfoldable pub request_post_init :
    MeetingReviewGenerationRequest → Result MeetingReviewGenerationRequest
request_post_init r =
    if elim r.stage [
      | batch_stage ↦ is_some r.batch && is_none r.intermediate_content
      | reduce_stage ↦ is_none r.batch && is_some r.intermediate_content
    ]
    then ok r
    else err application_validation

-- The part of `MeetingDetail` that the use case reads.
pub record MeetingDetail : Type 0 where
  pub meeting_id : ℕ
  pub status : MeetingStatus
  pub transcript : List TranscriptReadItem

pub record GenerateMeetingReviewResult : Type 0 where
  pub artifact : MeetingReviewArtifact
  pub reused_existing : Bool

-- The generation provider and the commit of a unit of work, on a world of the parameter's choice.
pub record Services (W : Type 0) : Type 0 where
  pub generate_review : MeetingReviewGenerationRequest → W → Result MeetingReviewContent × W
  pub commit : W → Result (Unit {0}) × W

-- The arguments of the constructor, with those of its batcher.
pub record Settings : Type 0 where
  pub provider_name : Text
  pub model_name : Text
  pub prompt_version : Text
  pub schema_version : ℕ
  pub max_characters : ℕ
  pub overlap : ℕ

-- The table of artifacts, and the world outside.
pub record Desk (W : Type 0) : Type 0 where
  pub artifacts : List MeetingReviewArtifact
  pub world : W

-- `meeting_review_artifacts.get_by_id`
abbrev pub get_artifact : ℕ → List MeetingReviewArtifact → Option MeetingReviewArtifact
get_artifact = find_row (λ a. a.artifact_id)

-- `meeting_review_artifacts.save`
abbrev pub save_artifact :
    MeetingReviewArtifact → List MeetingReviewArtifact → List MeetingReviewArtifact
save_artifact = save_row (λ a. a.artifact_id)

-- `meeting_review_artifacts.get_latest_version`
unfoldable pub get_latest_version : ℕ → List MeetingReviewArtifact → ℕ
get_latest_version meeting [] = 0
get_latest_version meeting (a ∷ rows) =
    let rest = get_latest_version meeting rows in
    if (a.meeting_id == meeting) && (a.review_type =ᵗ interview_review)
    then max a.version rest
    else rest

abbrev pub is_ended_status : MeetingStatus → Bool
is_ended_status MeetingStatus.ended = true
is_ended_status _ = false

abbrev pub is_completed_status : MeetingReviewArtifactStatus → Bool
is_completed_status MeetingReviewArtifactStatus.completed = true
is_completed_status _ = false

module _ {W A : Type 0} where
  abbrev pub outside : Desk W → Result A × W → Result A × Desk W
  outside s (r, w) = (r, record s { world = w })

  unfoldable pub external : (W → Result A × W) → Exec (Desk W) A
  external call s = outside s (call s.world)

module _ {W : Type 0} (services : Services W) (settings : Settings) where
  abbrev pub committed :
      Desk W → List MeetingReviewArtifact → Result (Unit {0}) × W → Result (Unit {0}) × Desk W
  committed s rows (ok done, w) = (ok done, record { artifacts = rows; world = w })
  committed s rows (err e, w) = (err e, record s { world = w })

  -- `save(artifact); commit()`, which is `_persist_new_artifact`
  unfoldable pub persist_new_artifact : MeetingReviewArtifact → Exec (Desk W) (Unit {0})
  persist_new_artifact a s = committed s (save_artifact a s.artifacts) (services.commit s.world)

  -- The artifact that `_new_processing_artifact` checks.
  abbrev pub processing_artifact : ℕ → DateTime → MeetingDetail → ℕ → MeetingReviewArtifact
  processing_artifact id created detail version = record {
    artifact_id = id;
    meeting_id = detail.meeting_id;
    version = version;
    review_type = interview_review;
    status = MeetingReviewArtifactStatus.processing;
    created_at = created;
    completed_at = none;
    source_transcript_count = length detail.transcript;
    content = none;
    provider_name = settings.provider_name;
    model_name = settings.model_name;
    prompt_version = settings.prompt_version;
    schema_version = settings.schema_version;
    failure_code = none;
  }

  -- `replace(processing, …)` of `_persist_terminal_artifact`
  abbrev pub terminal_artifact :
      DateTime
      → MeetingReviewArtifactStatus
      → Option MeetingReviewContent
      → Option ReviewFailureCode
      → MeetingReviewArtifact
      → MeetingReviewArtifact
  terminal_artifact now status content code a = record a {
    status = status;
    completed_at = if is_completed_status status then some now else none;
    content = content;
    failure_code = code;
  }

  abbrev pub persist_found :
      DateTime
      → MeetingReviewArtifactStatus
      → Option MeetingReviewContent
      → Option ReviewFailureCode
      → Option MeetingReviewArtifact
      → Exec (Desk W) MeetingReviewArtifact
  persist_found now status content code none = lift (err lookup_error)
  persist_found now status content code (some a) = do
    artifact ← lift (artifact_post_init (terminal_artifact now status content code a))
    persist_new_artifact artifact
    lift (ok artifact)

  -- `_persist_terminal_artifact`
  unfoldable pub persist_terminal_artifact :
      DateTime
      → ℕ
      → MeetingReviewArtifactStatus
      → Option MeetingReviewContent
      → Option ReviewFailureCode
      → Exec (Desk W) MeetingReviewArtifact
  persist_terminal_artifact now id status content code s =
      persist_found now status content code (get_artifact id s.artifacts) s

  -- `generate_review(MeetingReviewGenerationRequest(…))`
  unfoldable pub ask : MeetingReviewGenerationRequest → Exec (Desk W) MeetingReviewContent
  ask r = do request ← lift (request_post_init r); external (services.generate_review request)

  -- The loop over the batches.
  unfoldable pub review_batches :
      ℕ → List TranscriptReviewBatch → Exec (Desk W) (List BatchReviewResult)
  review_batches meeting [] = lift (ok [])
  review_batches meeting (b ∷ bs) = do
    content ← ask (record {
      meeting_id = meeting;
      stage = batch_stage;
      batch = some b;
      intermediate_content = none;
    })
    results ← review_batches meeting bs
    lift (ok (record { batch_index = b.batch_index; content = content } ∷ results))

  abbrev pub empty_content : MeetingReviewContent
  empty_content = record {
    summary = codes "No transcript content was available for review.";
    key_decisions = [];
    action_items = [];
    open_questions = [];
    technical_questions = [];
    technical_terms = [];
    feedback = none;
  }

  abbrev pub review_transcript : MeetingDetail → Exec (Desk W) MeetingReviewContent
  review_transcript detail = do
    batches ← lift (build_batches settings.max_characters settings.overlap detail.transcript)
    results ← review_batches detail.meeting_id batches
    intermediate ← lift (merge results)
    ask (record {
      meeting_id = detail.meeting_id;
      stage = reduce_stage;
      batch = none;
      intermediate_content = some intermediate;
    })

  -- `_generate_content`
  unfoldable pub generate_content : MeetingDetail → Exec (Desk W) MeetingReviewContent
  generate_content detail =
      if is_empty detail.transcript
      then lift (content_post_init empty_content)
      else review_transcript detail

  -- `_best_effort_persist_cancelled`
  unfoldable pub best_effort_persist_cancelled : DateTime → ℕ → Exec (Desk W) (Unit {0})
  best_effort_persist_cancelled now id =
      attempt
        (persist_terminal_artifact now id cancelled none (some review_cancelled) >> lift (ok tt))
        (unless_cancelled (lift (ok tt)))

  -- The handlers of `execute`; no other exception is caught.
  abbrev pub generation_failed : DateTime → ℕ → Error → Exec (Desk W) GenerateMeetingReviewResult
  generation_failed now id provider_error =
      persist_terminal_artifact now id MeetingReviewArtifactStatus.failed none
        (some review_provider_failed)
      >> lift (err provider_error)
  generation_failed now id cancelled_error =
      best_effort_persist_cancelled now id >> lift (err cancelled_error)
  generation_failed now id e = lift (err e)

  abbrev pub complete_review :
      DateTime → ℕ → MeetingReviewContent → Exec (Desk W) GenerateMeetingReviewResult
  complete_review now id content = do
    artifact ←
        persist_terminal_artifact now id MeetingReviewArtifactStatus.completed (some content) none
    lift (ok (record { artifact = artifact; reused_existing = false }))

  abbrev pub review_ended :
      ℕ → DateTime → DateTime → MeetingDetail → Exec (Desk W) GenerateMeetingReviewResult
  review_ended id created now detail s =
      (do
        processing ← lift (
            artifact_post_init (
              processing_artifact id created detail
                (get_latest_version detail.meeting_id s.artifacts + 1)))
        persist_new_artifact processing
        try_else (generate_content detail) (generation_failed now id) (complete_review now id))
        s

  -- `execute`, with what the repository reads of the meeting, the new id, and the two times of
  -- the clock
  unfoldable pub generate_meeting_review :
      ℕ → DateTime → DateTime → Option MeetingDetail → Exec (Desk W) GenerateMeetingReviewResult
  generate_meeting_review id created now none = lift (err lookup_error)
  generate_meeting_review id created now (some detail) =
      if is_ended_status detail.status
      then review_ended id created now detail
      else lift (err invalid_state_transition)
