-- ===== src/Assist/Context.antt =====
-- The recent transcript of a session, and the bounded context of one request for replies
-- (backend/app/application/services/recent_transcript_context.py,
-- backend/app/application/dto/assist_mode/reply_context.py and transcript_segment.py). The
-- context's lock is held by each method from its start to its end.
pub mod Longest
pub mod Replies
use ai_meeting_copilot.Prelude.{
  ℕ, ◌+◌, ◌-◌, not, ◌&&◌, ◌||◌, Option, none, some, List, [], ◌∷◌, ◌++◌, arith, ltb, if◌then◌else◌,
  length, take, take_last, get_last?, ◌>>=◌, ◌>>◌, raise_if, application_validation, Result, ok,
  err, is_utc, DateTime, Text, strip, is_blank,
}
use ai_meeting_copilot.Live.Chunk.{AudioSource}

pub record TranscriptSegment : Type 0 where
  pub transcript_id : ℕ
  pub meeting_id : ℕ
  pub text : Text
  pub timestamp : DateTime
  pub source : AudioSource
  pub speaker : Text

-- `TranscriptSegment.__post_init__`
unfoldable pub transcript_segment_post_init : TranscriptSegment → Result TranscriptSegment
transcript_segment_post_init s =
    if is_blank s.text || not (is_utc s.timestamp) || is_blank s.speaker
    then err application_validation
    else ok s

-- `MAX_PREVIOUS_SEGMENTS` and `MAX_CONTEXT_TEXT_LENGTH`
abbrev pub max_previous_segments : ℕ
max_previous_segments = 6

abbrev pub max_context_text_length : ℕ
max_context_text_length = 1200

-- `"\n".join(segment.text for segment in segments)`
abbrev pub join_texts : List TranscriptSegment → Text
join_texts [] = []
join_texts (s ∷ []) = s.text
join_texts (s ∷ t ∷ ts) = s.text ++ (10 ∷ join_texts (t ∷ ts))

-- `_combined_text_length`
abbrev pub combined_text_length : List TranscriptSegment → ℕ
combined_text_length ss = length (join_texts ss)

-- The two loops of `_trim_oldest`.
unfoldable pub trim_count : List TranscriptSegment → List TranscriptSegment
trim_count [] = []
trim_count (s ∷ ss) =
    let rest = trim_count ss in
    if ltb (max_previous_segments + 1) (length (s ∷ ss)) then rest else s ∷ ss

unfoldable pub trim_text : List TranscriptSegment → List TranscriptSegment
trim_text [] = []
trim_text (s ∷ ss) =
    let rest = trim_text ss in
    if ltb 1 (length (s ∷ ss)) && ltb max_context_text_length (combined_text_length (s ∷ ss))
    then rest
    else s ∷ ss

-- `RecentTranscriptContext.add`, from the retained segments to the retained segments.
unfoldable pub add : TranscriptSegment → List TranscriptSegment → Result (List TranscriptSegment)
unfolding trim_count trim_text
add s retained = do
  raise_if (ltb max_context_text_length (length s.text)) application_validation
  ok (trim_text (trim_count (retained ++ (s ∷ []))))

-- `ReplyContext`
pub record ReplyContext : Type 0 where
  pub newest_finalized_segment : TranscriptSegment
  pub previous_finalized_segments : List TranscriptSegment

-- The loop of `ReplyContext.__post_init__`.
unfoldable pub trim_previous : TranscriptSegment → List TranscriptSegment → List TranscriptSegment
trim_previous newest [] = []
trim_previous newest (s ∷ ss) =
    let rest = trim_previous newest ss in
    if ltb max_context_text_length (combined_text_length ((s ∷ ss) ++ (newest ∷ [])))
    then rest
    else s ∷ ss

-- `ReplyContext.__post_init__`
unfoldable pub reply_context_post_init :
    TranscriptSegment → List TranscriptSegment → Result ReplyContext
unfolding trim_previous
reply_context_post_init newest previous =
    let kept = trim_previous newest (take_last max_previous_segments previous) in
    let text = strip (take_last max_context_text_length newest.text) in
    if ltb max_context_text_length (combined_text_length (kept ++ (newest ∷ [])))
    then (transcript_segment_post_init (record newest { text = text }) >>= λ trimmed.
        ok (record { newest_finalized_segment = trimmed; previous_finalized_segments = kept }))
    else ok (record { newest_finalized_segment = newest; previous_finalized_segments = kept })

-- `ReplyContext.conversation_text`
abbrev pub conversation_text : ReplyContext → Text
conversation_text c =
    join_texts (c.previous_finalized_segments ++ (c.newest_finalized_segment ∷ []))

-- `RecentTranscriptContext.build_reply_context`
unfoldable pub build_reply_context : List TranscriptSegment → Result (Option ReplyContext)
build_reply_context retained = elim (get_last? retained) [
  | none ↦ ok none
  | some newest ↦
      reply_context_post_init newest (take (length retained - 1) retained) >>= λ c. ok (some c)
]
