-- ===== src/Review/Batcher.antt =====
-- Dividing a transcript into review batches
-- (backend/app/application/services/meeting_review_batcher.py and
-- backend/app/application/dto/meeting_review/review_batch.py).
pub mod Ends
pub mod Covers
use ai_meeting_copilot.Prelude.{
  ℕ, zero, suc, ◌+◌, ◌-◌, max, Bool, not, ◌&&◌, List, [], ◌∷◌, map, arith, ltb, leb, ◌==◌,
  if◌then◌else◌, length, drop, slice, all, ◌>>=◌, ◌>>◌, application_validation, other_error, Result,
  ok, err, Text, is_empty, is_blank,
}

-- Without the time, speaker and source, which the batcher does not read.
pub record TranscriptReadItem : Type 0 where
  pub transcript_id : ℕ
  pub text : Text

pub record TranscriptReviewBatch : Type 0 where
  pub batch_index : ℕ
  pub start_transcript_index : ℕ
  pub end_transcript_index : ℕ
  pub transcript_ids : List ℕ
  pub texts : List Text
  pub total_characters : ℕ

abbrev pub not_blank : Text → Bool
not_blank s = not (is_blank s)

-- `sum(len(text) for text in texts)`
abbrev pub characters : List Text → ℕ
characters [] = 0
characters (s ∷ ss) = length s + characters ss

-- The test of `TranscriptReviewBatch.__post_init__`, negated.
unfoldable pub batch_check : TranscriptReviewBatch → Bool
batch_check b =
    leb b.start_transcript_index b.end_transcript_index
    && not (is_empty b.transcript_ids)
    && (length b.transcript_ids == length b.texts)
    && all not_blank b.texts
    && (b.total_characters == characters b.texts)

unfoldable pub batch_post_init : TranscriptReviewBatch → Result TranscriptReviewBatch
unfolding batch_check
batch_post_init b = if batch_check b then ok b else err application_validation

abbrev pub ids : List TranscriptReadItem → List ℕ
ids = map (λ e. e.transcript_id)

abbrev pub texts_of : List TranscriptReadItem → List Text
texts_of = map (λ e. e.text)

-- The loop of `_next_end_index`, over the entries from `end_index` on.
unfoldable pub next_end_from : ℕ → ℕ → ℕ → ℕ → List TranscriptReadItem → ℕ
next_end_from max_characters start total end_index [] = end_index
next_end_from max_characters start total end_index (e ∷ es) =
    let total' = total + length e.text in
    let rest = next_end_from max_characters start total' (suc end_index) es in
    if ltb start end_index && ltb max_characters total'
    then end_index
    else if leb max_characters total'
    then suc end_index
    else rest

unfoldable pub next_end_index : ℕ → List TranscriptReadItem → ℕ → ℕ
unfolding next_end_from
next_end_index max_characters transcript start =
    next_end_from max_characters start 0 start (drop start transcript)

-- The batch that one round of the loop builds.
unfoldable pub batch_of : List TranscriptReadItem → ℕ → ℕ → ℕ → TranscriptReviewBatch
batch_of transcript start end_exclusive index =
    let entries = slice start end_exclusive transcript in
    record {
      batch_index = index;
      start_transcript_index = start;
      end_transcript_index = end_exclusive - 1;
      transcript_ids = ids entries;
      texts = texts_of entries;
      total_characters = characters (texts_of entries);
    }

module _ (max_characters overlap : ℕ) (transcript : List TranscriptReadItem) where
  -- `max(start_index + 1, end_exclusive - overlap)`; where the difference is negative in the
  -- source it is 0 here, and the first argument is the larger either way.
  abbrev pub next_start : ℕ → ℕ → ℕ
  next_start start end_exclusive = max (start + 1) (end_exclusive - overlap)

  -- The loop of `build_batches` with fuel, from a start index and the number of batches so far.
  unfoldable pub build_from : ℕ → ℕ → ℕ → Result (List TranscriptReviewBatch)
  build_from zero start index = err other_error
  build_from (suc fuel) start index =
      let stop = next_end_index max_characters transcript start in
      let rest = build_from fuel (next_start start stop) (suc index) in
      if leb (length transcript) start
      then ok []
      else batch_post_init (batch_of transcript start stop index) >>= λ batch.
          (if stop == length transcript
            then ok (batch ∷ [])
            else rest >>= λ batches. ok (batch ∷ batches))

  unfoldable pub build_batches : Result (List TranscriptReviewBatch)
  unfolding build_from
  build_batches = build_from (suc (length transcript)) 0 0

-- `__init__`: a positive budget; the other checks hold of natural numbers.
unfoldable pub batcher_init : ℕ → ℕ → Result (ℕ × ℕ)
batcher_init max_characters overlap =
    if max_characters == 0 then err application_validation else ok (max_characters, overlap)
