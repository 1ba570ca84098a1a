-- ===== src/Review/Translation/Whole.antt =====
-- The whole of `execute` of backend/app/application/use_cases/generate_meeting_translation.py.
use ai_meeting_copilot.Prelude.{
  ℕ, ◌+◌, ◌≡◌, refl, ◌∙◌, Bool, true, false, Option, none, some, [], if◌then◌else◌, ok, DateTime,
  is_utc,
}
use ai_meeting_copilot.Exec.{Exec, ◌>>=◌}
use ai_meeting_copilot.Exec.Ends.{Ends, bind-Ends, try_else-Ends}
use ai_meeting_copilot.Review.Generation.{MeetingDetail, is_ended_status}
use ai_meeting_copilot.Review.Translation.{
  MeetingTranslationArtifact, TranslationServices, TranslationSettings, TranslationDesk,
  GenerateMeetingTranslationResult, is_lifecycle_consistent, get_translation, latest_version,
  get_latest_completed, can_reuse, TranslationArtifactStatus,
}
use ai_meeting_copilot.Review.Table.{save_fresh}
use ai_meeting_copilot.Review.Translation.Execution.{
  persist_translation, processing_translation, translate_segments, translate_anew, reuse_or,
  generate_meeting_translation,
}
use ai_meeting_copilot.Review.Translation.Aligned.{Keeping, translate_segments-Keeping}
use ai_meeting_copilot.Review.Translation.Latest.{Earlier}
use ai_meeting_copilot.Review.Translation.Outcomes.{
  IsSetUp, Translated, Untranslated, Commits, end_row-ok,
}
use ai_meeting_copilot.Review.Translation.Persisted.{
  Extended, persist-table, complete_translation-Ends, translation_failed-Ends,
}

module _ {W : Type 0} (services : TranslationServices W) (settings : TranslationSettings) (id : ℕ)
    (created now : DateTime) (detail : MeetingDetail) where
  -- A new translation is wanted: it is forced, or there is none of this transcript.
  abbrev pub IsWanted : Bool → TranslationDesk W → Type 0
  IsWanted force s =
      (if force
        then ok false
        else can_reuse (get_latest_completed detail.meeting_id s.translations) detail)
      ≡ ok false

  not_reused :
      (o : Option MeetingTranslationArtifact)
      (anew : Exec (TranslationDesk W) GenerateMeetingTranslationResult)
      → reuse_or services settings o anew false ≡ anew
  not_reused none anew = refl
  not_reused (some a) anew = refl

  -- Translating an ended meeting of which a new translation is wanted, with a new id, UTC times
  -- behind those of its completed translations, short names in the settings and a database that
  -- takes every transaction, whatever the provider answers, adds one artifact of the next version
  -- behind those that were there, which stay as they were. If it returns, the artifact is the
  -- result, completed, with one segment for each entry of the transcript, of its id and text and
  -- with a translation that is not blank; and the same request without force, at any time and with
  -- any new id, then returns this artifact as reused and changes nothing. If it raises, the
  -- artifact has no segments, and it is failed after an exception of the provider, cancelled after
  -- a cancellation, and still processing after any other exception.
  pub generate_meeting_translation-Ends :
      (force : Bool) (s : TranslationDesk W)
      → IsSetUp services settings
      → Commits services settings
      → is_utc created ≡ true
      → is_utc now ≡ true
      → is_ended_status detail.status ≡ true
      → get_translation id s.translations ≡ none
      → Earlier detail.meeting_id created s.translations
      → IsWanted force s
      → Ends
          (Translated services settings id created now detail
            (latest_version detail.meeting_id s.translations)
            s.translations)
          (Untranslated services settings id created now detail
            (latest_version detail.meeting_id s.translations)
            s.translations)
          (generate_meeting_translation services settings id created now force (some detail) s)
  unfolding generate_meeting_translation ◌>>=◌ Keeping Extended is_lifecycle_consistent
  generate_meeting_translation-Ends force s c r u v d f b w =
      let n = latest_version detail.meeting_id s.translations in
      let base = processing_translation services settings id created detail (n + 1) in
      rw (d, w)
        (rw
          (not_reused (get_latest_completed detail.meeting_id s.translations)
            (translate_anew services settings id created now detail))
          (rw
            (end_row-ok services settings id created now detail n
              TranslationArtifactStatus.processing [] none c u refl refl refl)
            (bind-Ends (persist_translation services settings base) _ s
              (persist-table services settings id created now detail n r s.translations f base s _
                (save_fresh (λ a. a.artifact_id) base s.translations f))
              (λ _ t k.
                try_else-Ends (translate_segments services settings detail.transcript) _ _ t
                  (translate_segments-Keeping services settings detail.transcript t)
                  (λ segments x (l, m).
                    complete_translation-Ends services settings id created now detail n r
                      s.translations f c u v segments x d b l (m ∙ k))
                  (λ e x m.
                    translation_failed-Ends services settings id created now detail n r
                      s.translations f c u v e x (m ∙ k)))
              (λ e t k. absurd k))))
