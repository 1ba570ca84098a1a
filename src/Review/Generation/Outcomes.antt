-- ===== src/Review/Generation/Outcomes.antt =====
-- How `execute` of backend/app/application/use_cases/generate_meeting_review.py ends.
use ai_meeting_copilot.Prelude.{
  ℕ, ◌+◌, ◌≡◌, refl, ap, ◌∙◌, true, false, Option, none, some, List, [], ◌∷◌, ◌++◌, arith, leb,
  if◌then◌else◌, is_some, Error, cancelled_error, provider_error, Result, err, ok, DateTime, is_utc,
}
use ai_meeting_copilot.Exec.{lift, ◌>>=◌}
use ai_meeting_copilot.Exec.Ends.{Ends, bind-Ends, attempt-Ends}
use ai_meeting_copilot.Review.Batcher.{not_blank}
use ai_meeting_copilot.Review.Artifact.{
  MeetingReviewContent, MeetingReviewArtifact, is_absent_or_code, is_absent_or_utc_time,
  has_valid_general_fields, is_consistent, artifact_post_init, MeetingReviewArtifactStatus,
  processing, completed, failed, cancelled, ReviewFailureCode, review_provider_failed,
  review_cancelled,
}
use ai_meeting_copilot.Review.Generation.{
  MeetingDetail, GenerateMeetingReviewResult, Services, Settings, Desk, get_artifact, save_artifact,
  is_completed_status, committed, persist_new_artifact, processing_artifact, terminal_artifact,
  persist_terminal_artifact, best_effort_persist_cancelled, generation_failed, complete_review,
}
use ai_meeting_copilot.Review.Table.{find_last, save_last}

-- The status of the artifact when an exception left the use case.
pub status_after : Error → MeetingReviewArtifactStatus
status_after provider_error = failed
status_after cancelled_error = cancelled
status_after _ = processing

module _ {W : Type 0} (services : Services W) (settings : Settings) where
  -- What the constructor is given: names that are not blank, and a positive schema version.
  pub record IsConfigured : Type 0 where
    pub provider : not_blank settings.provider_name ≡ true
    pub model : not_blank settings.model_name ≡ true
    pub prompt : not_blank settings.prompt_version ≡ true
    pub schema : leb 1 settings.schema_version ≡ true

  -- The database takes every transaction.
  unfoldable pub IsReliable : Type 0
  IsReliable = (w : W) → (services.commit w).0 ≡ ok tt

  module _ (id : ℕ) (created now : DateTime) (detail : MeetingDetail) (n : ℕ) where
    abbrev base : MeetingReviewArtifact
    base = processing_artifact services settings id created detail (n + 1)

    abbrev terminal :
        MeetingReviewArtifactStatus
        → Option MeetingReviewContent
        → Option ReviewFailureCode
        → MeetingReviewArtifact
    terminal status content code = terminal_artifact services settings now status content code base

    pub terminal-ok :
        (status : MeetingReviewArtifactStatus) (content : Option MeetingReviewContent)
        (code : Option ReviewFailureCode)
        → IsConfigured
        → is_utc created ≡ true
        → is_absent_or_utc_time (if is_completed_status status then some now else none) ≡ true
        → is_absent_or_code code ≡ true
        → is_consistent (terminal status content code) ≡ true
        → artifact_post_init (terminal status content code) ≡ ok (terminal status content code)
    unfolding artifact_post_init has_valid_general_fields
    terminal-ok status content code c u t k s =
        rw (version n, u, t, c.provider, c.model, c.prompt, c.schema, k, s)
      where
        version : (m : ℕ) → leb 1 (m + 1) ≡ true
        version m = ground arith

    -- The table with one more artifact behind those that were there.
    unfoldable pub Appended : List MeetingReviewArtifact → MeetingReviewArtifact → Desk W → Type 0
    Appended rows a t = t.artifacts ≡ rows ++ (a ∷ [])

    -- A completed review: its artifact stands behind the artifacts that were there, and has
    -- the next version and a content.
    pub record Reviewed (rows : List MeetingReviewArtifact) (result : GenerateMeetingReviewResult)
        (t : Desk W) : Type 0 where
      pub appended : t.artifacts ≡ rows ++ (result.artifact ∷ [])
      pub own : result.artifact.artifact_id ≡ id
      pub meeting : result.artifact.meeting_id ≡ detail.meeting_id
      pub version : result.artifact.version ≡ n + 1
      pub status : result.artifact.status ≡ MeetingReviewArtifactStatus.completed
      pub content : is_some result.artifact.content ≡ true
      pub reused : result.reused_existing ≡ false

    -- A review that raised: the one artifact behind those that were there says why.
    pub record Abandoned (rows : List MeetingReviewArtifact) (e : Error) (t : Desk W) : Type 0 where
      pub artifact : MeetingReviewArtifact
      pub appended : t.artifacts ≡ rows ++ (artifact ∷ [])
      pub own : artifact.artifact_id ≡ id
      pub version : artifact.version ≡ n + 1
      pub status : artifact.status ≡ status_after e
      pub content : artifact.content ≡ none

    module _ (reliable : IsReliable) (rows : List MeetingReviewArtifact)
        (fresh : get_artifact id rows ≡ none) where
      pub persist-Ends :
          (a : MeetingReviewArtifact) (s : Desk W) (table : List MeetingReviewArtifact)
          → save_artifact a s.artifacts ≡ table
          → Ends
              (λ _ t. t.artifacts ≡ table)
              (λ _ t. ⊥)
              (persist_new_artifact services settings a s)
      unfolding persist_new_artifact IsReliable
      persist-Ends a s table h = go (services.commit s.world) (reliable s.world)
        where
          go :
              (c : Result (Unit {0}) × W)
              → c.0 ≡ ok tt
              → Ends
                  (λ _ t. t.artifacts ≡ table)
                  (λ _ t. ⊥)
                  (committed services settings s (save_artifact a s.artifacts) c)
          go (ok done, w) e = record { holds = h }
          go (err x, w) e = cc

      persist_terminal-Ends :
          (status : MeetingReviewArtifactStatus) (content : Option MeetingReviewContent)
          (code : Option ReviewFailureCode) (s : Desk W)
          → Appended rows base s
          → artifact_post_init (terminal status content code) ≡ ok (terminal status content code)
          → Ends
              (λ a t. (a ≡ terminal status content code) × Appended rows a t)
              (λ _ t. ⊥)
              (persist_terminal_artifact services settings now id status content code s)
      unfolding persist_terminal_artifact Appended ◌>>=◌
      persist_terminal-Ends status content code s h e =
          let last = terminal status content code in
          rw (ap (get_artifact id) h ∙ find_last (λ a. a.artifact_id) base rows fresh, e)
            (bind-Ends {V = λ a t. (a ≡ terminal status content code) × Appended rows a t}
              {E = λ _ t. ⊥} (persist_new_artifact services settings last) (λ _. lift (ok last)) s
              (persist-Ends last s (rows ++ (last ∷ [])) (
                ap (save_artifact last) h
                ∙ save_last (λ a. a.artifact_id) base last rows refl fresh))
              (λ _ t k. record { holds = (refl, k) }) (λ x t k. k))

      module _ (c : IsConfigured) (u : is_utc created ≡ true) (v : is_utc now ≡ true) where
        pub complete_review-Ends :
            (content : MeetingReviewContent) (s : Desk W)
            → Appended rows base s
            → Ends
                (Reviewed rows)
                (Abandoned rows)
                (complete_review services settings now id content s)
        unfolding is_consistent Appended
        complete_review-Ends content s h =
            bind-Ends _ _ s
              (persist_terminal-Ends completed (some content) none s h
                (terminal-ok completed (some content) none c u v refl refl))
              (λ a t k. record {
                holds = record {
                  appended = k.1;
                  own = ap (λ x. x.artifact_id) k.0;
                  meeting = ap (λ x. x.meeting_id) k.0;
                  version = ap (λ x. x.version) k.0;
                  status = ap (λ x. x.status) k.0;
                  content = ap (λ x. is_some x.content) k.0;
                  reused = refl;
                };
              })
              (λ e t k. absurd k)

        -- The artifact that ends the review by an exception.
        ended_by :
            (e : Error) (status : MeetingReviewArtifactStatus) (code : ReviewFailureCode)
            (a : MeetingReviewArtifact) (t : Desk W)
            → (a ≡ terminal status none (some code)) × Appended rows a t
            → status ≡ status_after e
            → Abandoned rows e t
        unfolding Appended
        ended_by e status code a t k s = record {
          artifact = terminal status none (some code);
          appended = k.1 ∙ ap (λ x. rows ++ (x ∷ [])) k.0;
          own = refl;
          version = refl;
          status = s;
          content = refl;
        }

        cancelled-Ends :
            (s : Desk W)
            → Appended rows base s
            → Ends
                (λ _ t. Abandoned rows cancelled_error t)
                (λ _ t. ⊥)
                (best_effort_persist_cancelled services settings now id s)
        unfolding best_effort_persist_cancelled is_consistent status_after
        cancelled-Ends s h =
            attempt-Ends {V = λ _ t. Abandoned rows cancelled_error t} {E = λ _ t. ⊥} _ _ s
              (bind-Ends {V = λ _ t. Abandoned rows cancelled_error t} {E = λ _ t. ⊥} _ _ s
                (persist_terminal-Ends cancelled none (some review_cancelled) s h
                  (terminal-ok cancelled none (some review_cancelled) c u refl refl refl))
                (λ a t k. record {
                  holds = ended_by cancelled_error cancelled review_cancelled a t k refl;
                })
                (λ e t k. k))
              (λ _ t k. k) (λ e t k. absurd k)

        pub generation_failed-Ends :
            (e : Error) (s : Desk W)
            → Appended rows base s
            → Ends (Reviewed rows) (Abandoned rows) (generation_failed services settings now id e s)
        unfolding is_consistent Appended status_after
        generation_failed-Ends provider_error s h =
            bind-Ends _ _ s
              (persist_terminal-Ends failed none (some review_provider_failed) s h
                (terminal-ok failed none (some review_provider_failed) c u refl refl refl))
              (λ a t k. record {
                holds = ended_by provider_error failed review_provider_failed a t k refl;
              })
              (λ e t k. absurd k)
        generation_failed-Ends cancelled_error s h =
            bind-Ends _ _ s (cancelled-Ends s h) (λ _ t k. record { holds = k }) (λ e t k. absurd k)
        generation_failed-Ends e s h = record {
          holds = record {
            artifact = base;
            appended = h;
            own = refl;
            version = refl;
            status = refl;
            content = refl;
          };
        }
