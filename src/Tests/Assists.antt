-- ===== src/Tests/Assists.antt =====
-- The theorems about the context of assist mode at concrete inputs.
use ai_meeting_copilot.Prelude.{
  ℕ, ◌+◌, ◌≤◌, ◌≡◌, refl, some, List, [], ◌∷◌, ◌++◌, arith, length, ok, pos, Text, codes,
}
use ai_meeting_copilot.Live.Chunk.{microphone}
use ai_meeting_copilot.Assist.Context.{
  add, reply_context_post_init, build_reply_context, TranscriptSegment, ReplyContext,
}
use ai_meeting_copilot.Assist.Context.Longest.{add-longest, Fits}
use ai_meeting_copilot.Assist.Context.Replies.{
  build_reply_context-exact, reply_context_post_init-Bounded, Bounded,
}

abbrev said : ℕ → Text → TranscriptSegment
said n text = record {
  transcript_id = n;
  meeting_id = 1;
  text = text;
  timestamp = record { instant = 43200 + n; offset = some (pos 0) };
  source = microphone;
  speaker = codes "Anna";
}

abbrev question : TranscriptSegment
question = said 2 (codes "When do we start?")

abbrev earlier : List TranscriptSegment
earlier = said 0 (codes "Good morning") ∷ said 1 (codes "Guten Morgen") ∷ []

add-longest_example :
    (d : List TranscriptSegment) × (k : List TranscriptSegment) × (add question earlier
      ≡ ok (k ++ (question ∷ [])))
    × (d ++ k ≡ earlier)
    × Fits (k ++ (question ∷ []))
    × ((d' t : List TranscriptSegment)
        → d' ++ t ≡ earlier ++ (question ∷ [])
        → Fits t
        → length t ≤ length (k ++ (question ∷ [])))
add-longest_example = add-longest question earlier (omega arith)

build_reply_context-exact_example :
    build_reply_context (earlier ++ (question ∷ []))
    ≡ ok (
        some
          (record { newest_finalized_segment = question; previous_finalized_segments = earlier }))
build_reply_context-exact_example =
    build_reply_context-exact earlier question (record { few = omega arith; short = omega arith })

abbrev asked : ReplyContext
asked = record { newest_finalized_segment = question; previous_finalized_segments = earlier }

reply_context_post_init-Bounded_example : Bounded earlier asked
unfolding reply_context_post_init
reply_context_post_init-Bounded_example =
    reply_context_post_init-Bounded question earlier asked refl
