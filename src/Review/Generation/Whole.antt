-- ===== src/Review/Generation/Whole.antt =====
-- The whole of `execute` of backend/app/application/use_cases/generate_meeting_review.py.
use ai_meeting_copilot.Prelude.{ℕ, ◌+◌, ◌≡◌, refl, ◌∙◌, true, none, some, DateTime, is_utc}
use ai_meeting_copilot.Exec.{◌>>=◌}
use ai_meeting_copilot.Exec.Ends.{Ends, bind-Ends, try_else-Ends}
use ai_meeting_copilot.Review.Artifact.{is_consistent, MeetingReviewArtifactStatus}
use ai_meeting_copilot.Review.Generation.{
  MeetingDetail, Services, Settings, Desk, get_artifact, get_latest_version, is_ended_status,
  persist_new_artifact, processing_artifact, generate_content, generate_meeting_review,
}
use ai_meeting_copilot.Review.Generation.Kept.{Keeps, generate_content-Keeps}
use ai_meeting_copilot.Review.Table.{save_fresh}
use ai_meeting_copilot.Review.Generation.Outcomes.{
  IsConfigured, Reviewed, Abandoned, IsReliable, terminal-ok, Appended, persist-Ends,
  complete_review-Ends, generation_failed-Ends,
}

module _ {W : Type 0} (services : Services W) (settings : Settings) (id : ℕ)
    (created now : DateTime) (detail : MeetingDetail) where
  -- Generating a review of an ended meeting with a new id, UTC times, a configured provider and a
  -- database that takes every transaction, whatever the provider answers, adds one artifact of
  -- the next version behind those that were there, which stay as they were. If it returns, the
  -- artifact is the result, completed and with a content. If it raises, the artifact has no
  -- content, and it is failed after an exception of the provider, cancelled after a cancellation,
  -- and still processing after any other exception.
  pub generate_meeting_review-Ends :
      (s : Desk W)
      → IsConfigured services settings
      → IsReliable services settings
      → is_utc created ≡ true
      → is_utc now ≡ true
      → is_ended_status detail.status ≡ true
      → get_artifact id s.artifacts ≡ none
      → Ends
          (Reviewed services settings id created now detail
            (get_latest_version detail.meeting_id s.artifacts)
            s.artifacts)
          (Abandoned services settings id created now detail
            (get_latest_version detail.meeting_id s.artifacts)
            s.artifacts)
          (generate_meeting_review services settings id created now (some detail) s)
  unfolding generate_meeting_review ◌>>=◌ Keeps Appended is_consistent
  generate_meeting_review-Ends s c r u v d f =
      let n = get_latest_version detail.meeting_id s.artifacts in
      let base = processing_artifact services settings id created detail (n + 1) in
      rw d (
        rw
          (terminal-ok services settings id created now detail n
            MeetingReviewArtifactStatus.processing none none c u refl refl refl)
          (bind-Ends (persist_new_artifact services settings base) _ s
            (persist-Ends services settings id created now detail n r s.artifacts f base s _
              (save_fresh (λ a. a.artifact_id) base s.artifacts f))
            (λ _ t k.
              try_else-Ends (generate_content services settings detail) _ _ t
                (generate_content-Keeps services settings detail t)
                (λ content w l.
                  complete_review-Ends services settings id created now detail n r s.artifacts f c u
                    v content w (l ∙ k))
                (λ e w l.
                  generation_failed-Ends services settings id created now detail n r s.artifacts f c
                    u v e w (l ∙ k)))
            (λ e t k. absurd k)))
