-- ===== src/Review/Translation/Execution.antt =====
-- The transactions and the calls of the provider in
-- backend/app/application/use_cases/generate_meeting_translation.py.
use ai_meeting_copilot.Prelude.{
  ℕ, ◌+◌, Bool, true, false, Option, none, some, List, [], ◌∷◌, if◌then◌else◌, length, Error,
  invalid_state_transition, lookup_error, cancelled_error, provider_error, Result, err, ok,
  DateTime,
}
use ai_meeting_copilot.Exec.{Exec, lift, attempt, ◌>>=◌, ◌>>◌, try_else, unless_cancelled}
use ai_meeting_copilot.Review.Batcher.{TranscriptReadItem}
use ai_meeting_copilot.Review.Generation.{MeetingDetail, is_ended_status}
use ai_meeting_copilot.Review.Translation.{
  TranslationArtifactSegment, MeetingTranslationArtifact, TranslationServices, TranslationSettings,
  TranslationDesk, GenerateMeetingTranslationResult, target, segment_post_init,
  translation_post_init, translation_request, get_translation, save_translation, latest_version,
  is_completed_translation, get_latest_completed, can_reuse, TranslationArtifactStatus,
  TranslationFailureCode, translation_provider_failed, translation_cancelled,
}

module _ {W A : Type 0} where
  -- A call that ended; the table is the same.
  abbrev pub called : TranslationDesk W → Result A × W → Result A × TranslationDesk W
  called s (r, w) = (r, record s { world = w })

  unfoldable pub call_out : (W → Result A × W) → Exec (TranslationDesk W) A
  call_out call s = called s (call s.world)

module _ {W : Type 0} (services : TranslationServices W) (settings : TranslationSettings) where
  abbrev pub committed :
      TranslationDesk W
      → List MeetingTranslationArtifact
      → Result (Unit {0}) × W
      → Result (Unit {0}) × TranslationDesk W
  committed s rows (ok done, w) = (ok done, record { translations = rows; world = w })
  committed s rows (err e, w) = (err e, record s { world = w })

  -- `_persist_new_artifact`
  unfoldable pub persist_translation :
      MeetingTranslationArtifact → Exec (TranslationDesk W) (Unit {0})
  persist_translation a s =
      committed s (save_translation a s.translations) (services.commit s.world)

  abbrev pub processing_translation : ℕ → DateTime → MeetingDetail → ℕ → MeetingTranslationArtifact
  processing_translation id created detail version = record {
    artifact_id = id;
    meeting_id = detail.meeting_id;
    version = version;
    target_language = target;
    status = TranslationArtifactStatus.processing;
    created_at = created;
    completed_at = none;
    source_transcript_count = length detail.transcript;
    segments = [];
    provider_name = settings.provider_name;
    model_name = settings.model_name;
    prompt_version = settings.prompt_version;
    schema_version = settings.schema_version;
    failure_code = none;
  }

  -- `replace(processing, …)` of `_persist_terminal_artifact`
  abbrev pub terminal_translation :
      DateTime
      → TranslationArtifactStatus
      → List TranslationArtifactSegment
      → Option TranslationFailureCode
      → MeetingTranslationArtifact
      → MeetingTranslationArtifact
  terminal_translation now status segments code a = record a {
    status = status;
    completed_at = if is_completed_translation status then some now else none;
    segments = segments;
    failure_code = code;
  }

  abbrev pub persist_read :
      DateTime
      → TranslationArtifactStatus
      → List TranslationArtifactSegment
      → Option TranslationFailureCode
      → Option MeetingTranslationArtifact
      → Exec (TranslationDesk W) MeetingTranslationArtifact
  persist_read now status segments code none = lift (err lookup_error)
  persist_read now status segments code (some a) = do
    artifact ← lift (translation_post_init (terminal_translation now status segments code a))
    persist_translation artifact
    lift (ok artifact)

  -- `_persist_terminal_artifact`
  unfoldable pub persist_terminal :
      DateTime
      → ℕ
      → TranslationArtifactStatus
      → List TranslationArtifactSegment
      → Option TranslationFailureCode
      → Exec (TranslationDesk W) MeetingTranslationArtifact
  persist_terminal now id status segments code s =
      persist_read now status segments code (get_translation id s.translations) s

  -- `_best_effort_persist_cancelled`
  unfoldable pub persist_cancelled : DateTime → ℕ → Exec (TranslationDesk W) (Unit {0})
  persist_cancelled now id =
      attempt
        (persist_terminal now id TranslationArtifactStatus.cancelled [] (some translation_cancelled)
          >> lift (ok tt))
        (unless_cancelled (lift (ok tt)))

  -- One round of the loop of `_translate_segments`.
  unfoldable pub translate_segment :
      TranscriptReadItem → Exec (TranslationDesk W) TranslationArtifactSegment
  translate_segment t = do
    request ← lift (translation_request t.text)
    translated ← call_out (services.translate request)
    lift (
        segment_post_init (record {
          transcript_id = t.transcript_id;
          source_text = t.text;
          translated_text = translated;
        }))

  -- `_translate_segments`
  unfoldable pub translate_segments :
      List TranscriptReadItem → Exec (TranslationDesk W) (List TranslationArtifactSegment)
  translate_segments [] = lift (ok [])
  translate_segments (t ∷ ts) = do
    segment ← translate_segment t
    segments ← translate_segments ts
    lift (ok (segment ∷ segments))

  -- The handlers of `execute`; no other exception is caught.
  abbrev pub translation_failed :
      DateTime → ℕ → Error → Exec (TranslationDesk W) GenerateMeetingTranslationResult
  translation_failed now id provider_error =
      persist_terminal now id TranslationArtifactStatus.failed [] (some translation_provider_failed)
      >> lift (err provider_error)
  translation_failed now id cancelled_error = persist_cancelled now id >> lift (err cancelled_error)
  translation_failed now id e = lift (err e)

  abbrev pub complete_translation :
      DateTime
      → ℕ
      → List TranslationArtifactSegment
      → Exec (TranslationDesk W) GenerateMeetingTranslationResult
  complete_translation now id segments = do
    artifact ← persist_terminal now id TranslationArtifactStatus.completed segments none
    lift (ok (record { artifact = artifact; reused_existing = false }))

  -- A new artifact, and the translation.
  abbrev pub translate_anew :
      ℕ
      → DateTime
      → DateTime
      → MeetingDetail
      → Exec (TranslationDesk W) GenerateMeetingTranslationResult
  translate_anew id created now detail s =
      (do
        new ← lift (
            translation_post_init (
              processing_translation id created detail
                (latest_version detail.meeting_id s.translations + 1)))
        persist_translation new
        try_else (translate_segments detail.transcript) (translation_failed now id)
            (complete_translation now id))
        s

  abbrev pub reuse_or :
      Option MeetingTranslationArtifact
      → Exec (TranslationDesk W) GenerateMeetingTranslationResult
      → Bool
      → Exec (TranslationDesk W) GenerateMeetingTranslationResult
  reuse_or (some existing) anew true =
      lift (ok (record { artifact = existing; reused_existing = true }))
  reuse_or _ anew _ = anew

  abbrev pub translate_ended :
      ℕ
      → DateTime
      → DateTime
      → Bool
      → MeetingDetail
      → Exec (TranslationDesk W) GenerateMeetingTranslationResult
  translate_ended id created now force detail s =
      let existing = get_latest_completed detail.meeting_id s.translations in
      (do
        reusable ← lift (if force then ok false else can_reuse existing detail)
        reuse_or existing (translate_anew id created now detail) reusable)
        s

  -- `execute`, with what the repository reads of the meeting, the new id, and the two times of
  -- the clock
  unfoldable pub generate_meeting_translation :
      ℕ
      → DateTime
      → DateTime
      → Bool
      → Option MeetingDetail
      → Exec (TranslationDesk W) GenerateMeetingTranslationResult
  generate_meeting_translation id created now force none = lift (err lookup_error)
  generate_meeting_translation id created now force (some detail) =
      if is_ended_status detail.status
      then translate_ended id created now force detail
      else lift (err invalid_state_transition)
