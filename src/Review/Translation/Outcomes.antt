-- ===== src/Review/Translation/Outcomes.antt =====
-- How `execute` of backend/app/application/use_cases/generate_meeting_translation.py ends when it
-- makes a new translation.
use ai_meeting_copilot.Prelude.{
  ℕ, ◌+◌, ◌≡◌, refl, ap, ◌∙◌, true, false, Option, none, some, List, [], ◌∷◌, ◌++◌, arith, leb,
  if◌then◌else◌, ==_refl, length, Error, cancelled_error, provider_error, ok, DateTime, is_utc,
}
use ai_meeting_copilot.Exec.{◌>>=◌}
use ai_meeting_copilot.Review.Artifact.{is_absent_or_utc_time}
use ai_meeting_copilot.Review.Generation.{MeetingDetail, is_ended_status}
use ai_meeting_copilot.Review.Translation.{
  TranslationArtifactSegment, MeetingTranslationArtifact, TranslationServices, TranslationSettings,
  TranslationDesk, GenerateMeetingTranslationResult, is_absent_or_known, is_generation_identifier,
  has_valid_fields, is_lifecycle_consistent, translation_post_init, is_completed_translation,
  get_latest_completed, can_reuse, TranslationArtifactStatus, TranslationFailureCode,
}
use ai_meeting_copilot.Review.Translation.Execution.{
  processing_translation, terminal_translation, generate_meeting_translation,
}
use ai_meeting_copilot.Review.Translation.Aligned.{Aligned, Aligned-all_match}
use ai_meeting_copilot.Review.Translation.Latest.{Earlier, get_latest_completed-last}

-- The status of the artifact when an exception left the use case.
unfoldable pub translation_status_after : Error → TranslationArtifactStatus
translation_status_after provider_error = TranslationArtifactStatus.failed
translation_status_after cancelled_error = TranslationArtifactStatus.cancelled
translation_status_after _ = TranslationArtifactStatus.processing

module _ {W : Type 0} (services : TranslationServices W) (settings : TranslationSettings) where
  -- What the constructor is given: short names that are not blank, and a positive schema version.
  pub record IsSetUp : Type 0 where
    pub provider : is_generation_identifier settings.provider_name ≡ true
    pub model : is_generation_identifier settings.model_name ≡ true
    pub prompt : is_generation_identifier settings.prompt_version ≡ true
    pub schema : leb 1 settings.schema_version ≡ true

  -- The database takes every transaction.
  unfoldable pub Commits : Type 0
  Commits = (w : W) → (services.commit w).0 ≡ ok tt

  module _ (id : ℕ) (created now : DateTime) (detail : MeetingDetail) (n : ℕ) where
    abbrev pub start_row : MeetingTranslationArtifact
    start_row = processing_translation services settings id created detail (n + 1)

    abbrev pub end_row :
        TranslationArtifactStatus
        → List TranslationArtifactSegment
        → Option TranslationFailureCode
        → MeetingTranslationArtifact
    end_row status segments code =
        terminal_translation services settings now status segments code start_row

    pub end_row-ok :
        (status : TranslationArtifactStatus) (segments : List TranslationArtifactSegment)
        (code : Option TranslationFailureCode)
        → IsSetUp
        → is_utc created ≡ true
        → is_absent_or_utc_time (if is_completed_translation status then some now else none) ≡ true
        → is_absent_or_known code ≡ true
        → is_lifecycle_consistent (end_row status segments code) ≡ true
        → translation_post_init (end_row status segments code) ≡ ok (end_row status segments code)
    unfolding translation_post_init has_valid_fields
    end_row-ok status segments code c u t k s =
        rw (version n, u, t, c.provider, c.model, c.prompt, c.schema, k, s)
      where
        version : (m : ℕ) → leb 1 (m + 1) ≡ true
        version m = ground arith

    -- A completed translation: its artifact stands behind the artifacts that were there, has the
    -- next version and one translated segment for each entry of the transcript; and the same
    -- request reuses it.
    pub record Translated (rows : List MeetingTranslationArtifact)
        (result : GenerateMeetingTranslationResult) (t : TranslationDesk W) : Type 0 where
      pub appended : t.translations ≡ rows ++ (result.artifact ∷ [])
      pub own : result.artifact.artifact_id ≡ id
      pub meeting : result.artifact.meeting_id ≡ detail.meeting_id
      pub version : result.artifact.version ≡ n + 1
      pub status : result.artifact.status ≡ TranslationArtifactStatus.completed
      pub aligned : Aligned result.artifact.segments detail.transcript
      pub reused : result.reused_existing ≡ false
      pub again :
          (id' : ℕ) (created' now' : DateTime)
          → generate_meeting_translation services settings id' created' now' false (some detail) t
            ≡ (ok (record { artifact = result.artifact; reused_existing = true }), t)

    -- A translation that raised: the one artifact behind those that were there says why.
    pub record Untranslated (rows : List MeetingTranslationArtifact) (e : Error)
        (t : TranslationDesk W) : Type 0 where
      pub artifact : MeetingTranslationArtifact
      pub appended : t.translations ≡ rows ++ (artifact ∷ [])
      pub own : artifact.artifact_id ≡ id
      pub version : artifact.version ≡ n + 1
      pub status : artifact.status ≡ translation_status_after e
      pub segments : artifact.segments ≡ []

    -- A completed artifact of the transcript is reused by a request that does not force.
    pub end_row-again :
        (rows : List MeetingTranslationArtifact) (segments : List TranslationArtifactSegment)
        (t : TranslationDesk W)
        → is_ended_status detail.status ≡ true
        → Earlier detail.meeting_id created rows
        → Aligned segments detail.transcript
        → t.translations ≡ rows ++ (end_row TranslationArtifactStatus.completed segments none ∷ [])
        → (id' : ℕ) (created' now' : DateTime)
        → generate_meeting_translation services settings id' created' now' false (some detail) t ≡ (
          ok (record {
            artifact = end_row TranslationArtifactStatus.completed segments none;
            reused_existing = true;
          }),
          t,
        )
    unfolding generate_meeting_translation can_reuse ◌>>=◌
    end_row-again rows segments t d b a h id' created' now' =
        let last = end_row TranslationArtifactStatus.completed segments none in
        let found : get_latest_completed detail.meeting_id t.translations ≡ some last =
          ap (get_latest_completed detail.meeting_id) h
          ∙ get_latest_completed-last last rows (rw (==_refl detail.meeting_id) refl) b in
        rw
          (
            d,
            found,
            ==_refl (length detail.transcript),
            Aligned-all_match segments detail.transcript a,
          )
          refl
