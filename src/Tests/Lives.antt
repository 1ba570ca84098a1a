-- ===== src/Tests/Lives.antt =====
-- The theorems about live transcription at concrete inputs.
use mathlib.Core.Path.{subst}
use ai_meeting_copilot.Prelude.{
  ℕ, ◌+◌, ◌≡◌, refl, false, ◌&&◌, none, some, List, [], ◌∷◌, map, arith, leb, if◌then◌else◌,
  take_last, ok-injective, ok, pos, Text, codes, is_space, is_blank,
}
use ai_meeting_copilot.Meeting.{active, Meeting}
use ai_meeting_copilot.Live.Deduplicator.{
  is_punctuation, words_from, overlap_size, normalized_current_tokens, normalized_tokens,
  deduplicate,
}
use ai_meeting_copilot.Live.Deduplicator.Overlap.{overlap_size-IsLargest, IsLargest}
use ai_meeting_copilot.Live.Deduplicator.Results.{IsTail, deduplicate-IsTail, deduplicate_repeated}
use ai_meeting_copilot.Live.Buffer.{buffer_init, BoundedAudioChunkBuffer}
use ai_meeting_copilot.Live.Buffer.Fifo.{put_all, put_all-newest}
use ai_meeting_copilot.Live.Chunk.{
  process_segments, execute, mixed, CapturedAudioChunk, TranscriptionSegment,
}
use ai_meeting_copilot.Live.Chunk.Persisted.{
  OpenWith, HaveSpeakers, Persists, process_segments-Persists, Answers, execute-Answers,
}

-- `str.lower` on ASCII letters.
abbrev lower_letter : ℕ → ℕ
lower_letter c = if leb 65 c && leb c 90 then c + 32 else c

abbrev lower : Text → Text
lower = map lower_letter

overlap_size-IsLargest_example :
    IsLargest 2
      (codes "a" ∷ codes "b" ∷ [])
      (codes "b" ∷ codes "c" ∷ [])
      (overlap_size 2 (codes "a" ∷ codes "b" ∷ []) (codes "b" ∷ codes "c" ∷ []))
overlap_size-IsLargest_example =
    overlap_size-IsLargest 2 (codes "a" ∷ codes "b" ∷ []) (codes "b" ∷ codes "c" ∷ [])

deduplicate-IsTail_example : (is_blank (codes "c") ≡ false) × IsTail (codes " B, c") (codes "c")
unfolding deduplicate is_space is_punctuation
deduplicate-IsTail_example =
    deduplicate-IsTail lower 24 (some (codes "a b")) (codes " B, c") (codes "c") refl

deduplicate_repeated_example : deduplicate lower 24 (some (codes "a b")) (codes "A B!") ≡ none
unfolding words_from normalized_current_tokens normalized_tokens is_space is_punctuation
deduplicate_repeated_example =
    deduplicate_repeated lower 24 (codes "a b") (codes "A B!") refl (omega arith) (omega arith)
      (omega arith) refl

abbrev full : BoundedAudioChunkBuffer ℕ
full = record { max_size = 2; chunks = 1 ∷ 2 ∷ []; is_closed = false }

put_all-newest_example :
    (b0 : BoundedAudioChunkBuffer ℕ) × (b : BoundedAudioChunkBuffer ℕ) × (buffer_init 2 ≡ ok b0)
    × (put_all (1 ∷ 2 ∷ 3 ∷ []) b0 ≡ ok b)
    × (b.chunks ≡ take_last 2 (1 ∷ 2 ∷ 3 ∷ []))
put_all-newest_example = put_all-newest 2 (1 ∷ 2 ∷ 3 ∷ []) (omega arith)

abbrev chunk : CapturedAudioChunk
chunk = record {
  meeting_id = 1;
  sequence = 4;
  capture_started_at = record { instant = 43200; offset = some (pos 0) };
  source = mixed;
}

abbrev heard : List TranscriptionSegment
heard =
    record { text = codes "Hello all"; start_seconds = 0; speaker = none }
    ∷ record { text = codes "all right"; start_seconds = 2; speaker = some (codes "Anna") }
    ∷ []

abbrev meeting : Meeting
meeting = record {
  id = 1;
  name = codes "Weekly review";
  status = active;
  started_at = some (record { instant = 43000; offset = some (pos 0) });
  ended_at = none;
  transcripts = [];
  pending_events = [];
}

heard-HaveSpeakers : HaveSpeakers heard
unfolding is_space
heard-HaveSpeakers = (refl, (refl, tt))

meeting-OpenWith : OpenWith (some meeting) []
meeting-OpenWith = (meeting, refl, λ e. cc, refl)

process_segments-Persists_example :
    Persists [] (process_segments lower 24 (λ n. n) chunk heard none 0 (some meeting))
process_segments-Persists_example =
    process_segments-Persists lower 24 (λ n. n) chunk heard none 0 (some meeting) [] refl
      heard-HaveSpeakers meeting-OpenWith

execute-Answers_example :
    Answers lower 24
      (λ n. n)
      chunk
      []
      (ok heard)
      (execute lower 24 (λ n. n) (ok heard) chunk none (some meeting))
execute-Answers_example =
    execute-Answers lower 24 (λ n. n) (ok heard) chunk none (some meeting) [] refl
      (λ ss e. subst HaveSpeakers (ok-injective heard ss e) heard-HaveSpeakers) meeting-OpenWith
