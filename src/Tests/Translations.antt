-- ===== src/Tests/Translations.antt =====
-- The theorem about translations at a meeting of one entry.
use ai_meeting_copilot.Prelude.{ℕ, ◌+◌, ◌≡◌, refl, false, none, some, [], ◌∷◌, is_space, ok, codes}
use ai_meeting_copilot.Exec.{◌>>=◌, try_else}
use ai_meeting_copilot.Exec.Ends.{Ends}
use ai_meeting_copilot.Meeting.{MeetingStatus}
use ai_meeting_copilot.Review.Table.{find_row, save_row}
use ai_meeting_copilot.Review.Generation.{MeetingDetail}
use ai_meeting_copilot.Review.Translation.{
  TranslationServices, TranslationSettings, TranslationDesk, segment_post_init, has_valid_fields,
  is_lifecycle_consistent, translation_post_init, translation_request, get_translation,
  latest_version, get_latest_completed, can_reuse,
}
use ai_meeting_copilot.Review.Translation.Execution.{
  call_out, persist_translation, persist_terminal, translate_segment, translate_segments,
  generate_meeting_translation,
}
use ai_meeting_copilot.Review.Translation.Latest.{Earlier}
use ai_meeting_copilot.Review.Translation.Outcomes.{IsSetUp, Translated, Untranslated, Commits}
use ai_meeting_copilot.Review.Translation.Whole.{IsWanted, generate_meeting_translation-Ends}
use ai_meeting_copilot.Tests.Recordings.{at}

-- A provider that counts its calls and answers each with the same text.
abbrev services : TranslationServices ℕ
services = record {
  translate = λ text calls. (ok (codes "merhaba"), calls + 1);
  commit = λ calls. (ok tt, calls);
}

abbrev settings : TranslationSettings
settings = record {
  provider_name = codes "ollama";
  model_name = codes "model";
  prompt_version = codes "v1";
  schema_version = 1;
}

abbrev detail : MeetingDetail
detail = record {
  meeting_id = 4;
  status = MeetingStatus.ended;
  transcript = record { transcript_id = 1; text = codes "hallo" } ∷ [];
}

abbrev desk : TranslationDesk ℕ
desk = record { translations = []; world = 0 }

set_up : IsSetUp services settings
unfolding is_space
set_up = record { provider = refl; model = refl; prompt = refl; schema = refl }

commits : Commits services settings
unfolding Commits
commits w = refl

unused : get_translation 9 desk.translations ≡ none
unfolding find_row
unused = refl

earlier : Earlier 4 (at 100) desk.translations
unfolding Earlier
earlier = tt

wanted : IsWanted services settings 9 (at 100) (at 200) detail false desk
unfolding can_reuse get_latest_completed
wanted = refl

generate_meeting_translation-Ends_example :
    Ends
      (Translated services settings 9 (at 100) (at 200) detail (latest_version 4 []) [])
      (Untranslated services settings 9 (at 100) (at 200) detail (latest_version 4 []) [])
      (generate_meeting_translation services settings 9 (at 100) (at 200) false (some detail) desk)
generate_meeting_translation-Ends_example =
    generate_meeting_translation-Ends services settings 9 (at 100) (at 200) detail false desk set_up
      commits refl refl refl unused earlier wanted

-- The entry is translated by one call.
one_call :
    (generate_meeting_translation services settings 9
      (at 100)
      (at 200)
      false
      (some detail)
      desk).1.world
    ≡ 1
unfolding generate_meeting_translation ◌>>=◌ try_else get_latest_completed can_reuse
    translation_post_init has_valid_fields is_lifecycle_consistent persist_translation
    persist_terminal translate_segments translate_segment translation_request segment_post_init
    call_out find_row save_row is_space latest_version
one_call = refl
