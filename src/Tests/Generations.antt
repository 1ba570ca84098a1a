-- ===== src/Tests/Generations.antt =====
-- The theorems about merging and generating reviews at concrete inputs.
use ai_meeting_copilot.Prelude.{
  ℕ, ◌+◌, ◌≡◌, refl, none, some, [], ◌∷◌, is_space, ok, Text, codes, ◌=ᵗ◌,
}
use ai_meeting_copilot.Exec.Ends.{Ends}
use ai_meeting_copilot.Meeting.{MeetingStatus}
use ai_meeting_copilot.Review.Artifact.{MeetingReviewContent}
use ai_meeting_copilot.Review.Merger.{BatchReviewResult, is_in, deduplicate, merge}
use ai_meeting_copilot.Review.Table.{find_row}
use ai_meeting_copilot.Review.Generation.{
  MeetingDetail, Services, Settings, Desk, get_artifact, get_latest_version,
  generate_meeting_review,
}
use ai_meeting_copilot.Review.Merger.Deduplicated.{Unique, deduplicate-Unique}
use ai_meeting_copilot.Review.Merger.Order.{merge-Reordered, Reordered}
use ai_meeting_copilot.Review.Generation.Outcomes.{IsConfigured, Reviewed, Abandoned, IsReliable}
use ai_meeting_copilot.Review.Generation.Whole.{generate_meeting_review-Ends}
use ai_meeting_copilot.Tests.Recordings.{at}
use ai_meeting_copilot.Live.Deduplicator.Overlap.{=ᵗ-eq, =ᵗ-refl}

abbrev content : Text → MeetingReviewContent
content s = record {
  summary = s;
  key_decisions = codes "ship" ∷ codes "ship" ∷ [];
  action_items = [];
  open_questions = [];
  technical_questions = [];
  technical_terms = [];
  feedback = none;
}

abbrev first : BatchReviewResult
first = record { batch_index = 0; content = content (codes "one") }

abbrev second : BatchReviewResult
second = record { batch_index = 1; content = content (codes "two") }

merge-Reordered_example : merge (second ∷ first ∷ []) ≡ merge (first ∷ second ∷ [])
merge-Reordered_example =
    merge-Reordered (second ∷ first ∷ []) (first ∷ second ∷ [])
      (Reordered.exchanged second first [])

deduplicate-Unique_example :
    Unique ◌=ᵗ◌ =ᵗ-eq =ᵗ-refl (deduplicate ◌=ᵗ◌ (codes "ship" ∷ codes "ship" ∷ []))
    × ((y : Text)
        → is_in ◌=ᵗ◌ y (deduplicate ◌=ᵗ◌ (codes "ship" ∷ codes "ship" ∷ []))
          ≡ is_in ◌=ᵗ◌ y (codes "ship" ∷ codes "ship" ∷ []))
deduplicate-Unique_example =
    deduplicate-Unique ◌=ᵗ◌ =ᵗ-eq =ᵗ-refl (codes "ship" ∷ codes "ship" ∷ [])

-- A provider that answers the number of its calls with the same content.
abbrev services : Services ℕ
services = record {
  generate_review = λ request calls. (ok (content (codes "done")), calls + 1);
  commit = λ calls. (ok tt, calls);
}

abbrev settings : Settings
settings = record {
  provider_name = codes "openai";
  model_name = codes "model";
  prompt_version = codes "v1";
  schema_version = 1;
  max_characters = 10;
  overlap = 0;
}

abbrev detail : MeetingDetail
detail = record {
  meeting_id = 4;
  status = MeetingStatus.ended;
  transcript = record { transcript_id = 1; text = codes "hello" } ∷ [];
}

abbrev desk : Desk ℕ
desk = record { artifacts = []; world = 0 }

configured : IsConfigured services settings
unfolding is_space
configured = record { provider = refl; model = refl; prompt = refl; schema = refl }

reliable : IsReliable services settings
unfolding IsReliable
reliable w = refl

fresh : get_artifact 9 desk.artifacts ≡ none
unfolding find_row
fresh = refl

generate_meeting_review-Ends_example :
    Ends
      (Reviewed services settings 9 (at 100) (at 200) detail (get_latest_version 4 []) [])
      (Abandoned services settings 9 (at 100) (at 200) detail (get_latest_version 4 []) [])
      (generate_meeting_review services settings 9 (at 100) (at 200) (some detail) desk)
generate_meeting_review-Ends_example =
    generate_meeting_review-Ends services settings 9 (at 100) (at 200) detail desk configured
      reliable refl refl refl fresh
