-- ===== src/Tests/Reviews.antt =====
-- The theorems about review batches at concrete inputs.
use ai_meeting_copilot.Prelude.{◌≡◌, refl, List, [], ◌∷◌, arith, ok, codes, is_space}
use ai_meeting_copilot.Review.Batcher.{build_batches, TranscriptReadItem, TranscriptReviewBatch}
use ai_meeting_copilot.Review.Batcher.Covers.{Chain, HaveText, build_batches-Chain}

abbrev entries : List TranscriptReadItem
entries =
    record { transcript_id = 1; text = codes "Guten Tag" }
    ∷ record { transcript_id = 2; text = codes "Hello" }
    ∷ record { transcript_id = 3; text = codes "We start now" }
    ∷ []

entries-HaveText : HaveText entries
unfolding is_space
entries-HaveText = refl

build_batches-Chain_example :
    (bs : List TranscriptReviewBatch) × (build_batches 15 1 entries ≡ ok bs)
    × Chain 15 1 entries 0 0 bs
build_batches-Chain_example = build_batches-Chain 15 1 entries entries-HaveText (omega arith)
