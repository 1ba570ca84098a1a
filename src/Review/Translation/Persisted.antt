-- ===== src/Review/Translation/Persisted.antt =====
-- What the transactions of backend/app/application/use_cases/generate_meeting_translation.py leave
-- in the table.
use mathlib.Core.Path.{subst}
use ai_meeting_copilot.Prelude.{
  ℕ, ◌≡◌, refl, sym, ap, ◌∙◌, true, false, Option, none, some, List, [], ◌∷◌, ◌++◌, ==_refl, length,
  Error, cancelled_error, provider_error, Result, err, ok, DateTime, is_utc,
}
use ai_meeting_copilot.Exec.{lift, ◌>>=◌}
use ai_meeting_copilot.Exec.Ends.{Ends, bind-Ends, attempt-Ends}
use ai_meeting_copilot.Review.Generation.{MeetingDetail, is_ended_status}
use ai_meeting_copilot.Review.Translation.{
  TranslationArtifactSegment, MeetingTranslationArtifact, TranslationServices, TranslationSettings,
  TranslationDesk, GenerateMeetingTranslationResult, is_lifecycle_consistent, translation_post_init,
  get_translation, save_translation, TranslationArtifactStatus, TranslationFailureCode,
  translation_provider_failed, translation_cancelled,
}
use ai_meeting_copilot.Review.Table.{find_last, save_last}
use ai_meeting_copilot.Review.Translation.Execution.{
  committed, persist_translation, persist_terminal, persist_cancelled, translation_failed,
  complete_translation,
}
use ai_meeting_copilot.Review.Translation.Aligned.{Aligned, Aligned-length}
use ai_meeting_copilot.Review.Translation.Latest.{Earlier}
use ai_meeting_copilot.Review.Translation.Outcomes.{
  IsSetUp, Translated, Untranslated, translation_status_after, Commits, start_row, end_row,
  end_row-ok, end_row-again,
}

module _ {W : Type 0} (services : TranslationServices W) (settings : TranslationSettings) (id : ℕ)
    (created now : DateTime) (detail : MeetingDetail) (n : ℕ) where
  abbrev first_row : MeetingTranslationArtifact
  first_row = start_row services settings id created now detail n

  abbrev last_row :
      TranslationArtifactStatus
      → List TranslationArtifactSegment
      → Option TranslationFailureCode
      → MeetingTranslationArtifact
  last_row = end_row services settings id created now detail n

  abbrev Done :
      List MeetingTranslationArtifact
      → GenerateMeetingTranslationResult
      → TranslationDesk W
      → Type 0
  Done = Translated services settings id created now detail n

  abbrev Stopped : List MeetingTranslationArtifact → Error → TranslationDesk W → Type 0
  Stopped = Untranslated services settings id created now detail n

  unfoldable pub Extended :
      List MeetingTranslationArtifact → MeetingTranslationArtifact → TranslationDesk W → Type 0
  Extended rows a t = t.translations ≡ rows ++ (a ∷ [])

  module _ (reliable : Commits services settings) (rows : List MeetingTranslationArtifact)
      (unused : get_translation id rows ≡ none) where
    pub persist-table :
        (a : MeetingTranslationArtifact) (s : TranslationDesk W)
        (table : List MeetingTranslationArtifact)
        → save_translation a s.translations ≡ table
        → Ends
            (λ _ t. t.translations ≡ table)
            (λ _ t. ⊥)
            (persist_translation services settings a s)
    unfolding persist_translation Commits
    persist-table a s table h = go (services.commit s.world) (reliable s.world)
      where
        go :
            (c : Result (Unit {0}) × W)
            → c.0 ≡ ok tt
            → Ends
                (λ _ t. t.translations ≡ table)
                (λ _ t. ⊥)
                (committed services settings s (save_translation a s.translations) c)
        go (ok done, w) e = record { holds = h }
        go (err x, w) e = cc

    persist_terminal-row :
        (status : TranslationArtifactStatus) (segments : List TranslationArtifactSegment)
        (code : Option TranslationFailureCode) (s : TranslationDesk W)
        → Extended rows first_row s
        → translation_post_init (last_row status segments code) ≡ ok (last_row status segments code)
        → Ends
            (λ a t. (a ≡ last_row status segments code) × Extended rows a t)
            (λ _ t. ⊥)
            (persist_terminal services settings now id status segments code s)
    unfolding persist_terminal Extended ◌>>=◌
    persist_terminal-row status segments code s h e =
        let last = last_row status segments code in
        rw (ap (get_translation id) h ∙ find_last (λ x. x.artifact_id) first_row rows unused, e)
          (bind-Ends {V = λ a t. (a ≡ last_row status segments code) × Extended rows a t}
            {E = λ _ t. ⊥} (persist_translation services settings last) (λ _. lift (ok last)) s
            (persist-table last s (rows ++ (last ∷ [])) (
              ap (save_translation last) h
              ∙ save_last (λ x. x.artifact_id) first_row last rows refl unused))
            (λ _ t k. record { holds = (refl, k) }) (λ x t k. k))

    module _ (c : IsSetUp services settings) (u : is_utc created ≡ true)
        (v : is_utc now ≡ true) where
      completed_consistent :
          (segments : List TranslationArtifactSegment)
          → Aligned segments detail.transcript
          → is_lifecycle_consistent (last_row TranslationArtifactStatus.completed segments none)
            ≡ true
      unfolding is_lifecycle_consistent
      completed_consistent segments a =
          rw (Aligned-length segments detail.transcript a, ==_refl (length detail.transcript)) refl

      translated_row :
          (segments : List TranslationArtifactSegment) (a : MeetingTranslationArtifact)
          (t : TranslationDesk W)
          → is_ended_status detail.status ≡ true
          → Earlier detail.meeting_id created rows
          → Aligned segments detail.transcript
          → (a ≡ last_row TranslationArtifactStatus.completed segments none) × Extended rows a t
          → Done rows (record { artifact = a; reused_existing = false }) t
      unfolding Extended
      translated_row segments a t d b l k =
          let last = last_row TranslationArtifactStatus.completed segments none in
          let whole : Done rows (record { artifact = last; reused_existing = false }) t = record {
            appended = k.1 ∙ ap (λ x. rows ++ (x ∷ [])) k.0;
            own = refl;
            meeting = refl;
            version = refl;
            status = refl;
            aligned = l;
            reused = refl;
            again =
                end_row-again services settings id created now detail n rows segments t d b l
                  (k.1 ∙ ap (λ x. rows ++ (x ∷ [])) k.0);
          } in
          subst (λ x. Done rows (record { artifact = x; reused_existing = false }) t) (sym k.0)
            whole

      pub complete_translation-Ends :
          (segments : List TranslationArtifactSegment) (s : TranslationDesk W)
          → is_ended_status detail.status ≡ true
          → Earlier detail.meeting_id created rows
          → Aligned segments detail.transcript
          → Extended rows first_row s
          → Ends
              (Done rows)
              (Stopped rows)
              (complete_translation services settings now id segments s)
      complete_translation-Ends segments s d b l h =
          bind-Ends _ _ s
            (persist_terminal-row TranslationArtifactStatus.completed segments none s h (
              end_row-ok services settings id created now detail n
                TranslationArtifactStatus.completed segments none c u v refl
                (completed_consistent segments l)))
            (λ a t k. record { holds = translated_row segments a t d b l k }) (λ e t k. absurd k)

      -- The artifact that ends the translation by an exception.
      ended_by :
          (e : Error) (status : TranslationArtifactStatus) (code : TranslationFailureCode)
          (a : MeetingTranslationArtifact) (t : TranslationDesk W)
          → (a ≡ last_row status [] (some code)) × Extended rows a t
          → status ≡ translation_status_after e
          → Stopped rows e t
      unfolding Extended
      ended_by e status code a t k s = record {
        artifact = last_row status [] (some code);
        appended = k.1 ∙ ap (λ x. rows ++ (x ∷ [])) k.0;
        own = refl;
        version = refl;
        status = s;
        segments = refl;
      }

      cancelled-row :
          (s : TranslationDesk W)
          → Extended rows first_row s
          → Ends
              (λ _ t. Stopped rows cancelled_error t)
              (λ _ t. ⊥)
              (persist_cancelled services settings now id s)
      unfolding persist_cancelled is_lifecycle_consistent translation_status_after
      cancelled-row s h =
          attempt-Ends {V = λ _ t. Stopped rows cancelled_error t} {E = λ _ t. ⊥} _ _ s
            (bind-Ends {V = λ _ t. Stopped rows cancelled_error t} {E = λ _ t. ⊥} _ _ s
              (persist_terminal-row TranslationArtifactStatus.cancelled []
                (some translation_cancelled) s h
                (end_row-ok services settings id created now detail n
                  TranslationArtifactStatus.cancelled [] (some translation_cancelled) c u refl refl
                  refl))
              (λ a t k. record {
                holds =
                    ended_by cancelled_error TranslationArtifactStatus.cancelled
                      translation_cancelled a t k refl;
              })
              (λ e t k. k))
            (λ _ t k. k) (λ e t k. absurd k)

      pub translation_failed-Ends :
          (e : Error) (s : TranslationDesk W)
          → Extended rows first_row s
          → Ends (Done rows) (Stopped rows) (translation_failed services settings now id e s)
      unfolding is_lifecycle_consistent Extended translation_status_after
      translation_failed-Ends provider_error s h =
          bind-Ends _ _ s
            (persist_terminal-row TranslationArtifactStatus.failed []
              (some translation_provider_failed) s h
              (end_row-ok services settings id created now detail n TranslationArtifactStatus.failed
                [] (some translation_provider_failed) c u refl refl refl))
            (λ a t k. record {
              holds =
                  ended_by provider_error TranslationArtifactStatus.failed
                    translation_provider_failed a t k refl;
            })
            (λ e t k. absurd k)
      translation_failed-Ends cancelled_error s h =
          bind-Ends _ _ s (cancelled-row s h) (λ _ t k. record { holds = k }) (λ e t k. absurd k)
      translation_failed-Ends e s h = record {
        holds = record {
          artifact = first_row;
          appended = h;
          own = refl;
          version = refl;
          status = refl;
          segments = refl;
        };
      }
