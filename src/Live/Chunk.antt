-- ===== src/Live/Chunk.antt =====
-- Processing one captured chunk: transcribe, remove the overlap, persist and return the rest
-- (backend/app/application/use_cases/process_live_audio_chunk.py and add_transcript.py). The
-- speech-to-text provider, `str.lower` and `uuid4` are arguments. Diagnostics and logging are
-- left out.
pub mod Persisted
use ai_meeting_copilot.Prelude.{
  ℕ, suc, ◌+◌, Bool, not, ◌||◌, Option, none, some, List, [], ◌∷◌, arith, if◌then◌else◌, ◌>>=◌,
  ◌>>◌, application_validation, lookup_error, Result, ok, err, is_utc, DateTime, Text, codes,
  is_empty, is_blank,
}
use ai_meeting_copilot.Meeting.{start, add_transcript, Meeting}
use ai_meeting_copilot.Live.Deduplicator.{deduplicate}

pub data AudioSource : Type 0 where
  mixed microphone system_audio : AudioSource

-- One captured chunk, without its audio bytes.
pub record CapturedAudioChunk : Type 0 where
  pub meeting_id : ℕ
  pub sequence : ℕ
  pub capture_started_at : DateTime
  pub source : AudioSource

-- What the provider returns for one segment, without its end. `start_seconds` is counted in the
-- microseconds of `timedelta(seconds=start_seconds)`.
pub record TranscriptionSegment : Type 0 where
  pub text : Text
  pub start_seconds : ℕ
  pub speaker : Option Text

pub record ProcessedTranscriptSegment : Type 0 where
  pub transcript_id : ℕ
  pub text : Text
  pub timestamp : DateTime
  pub source : AudioSource
  pub speaker : Text

-- `ProcessedTranscriptSegment.__post_init__`
unfoldable pub segment_post_init : ProcessedTranscriptSegment → Result ProcessedTranscriptSegment
segment_post_init s =
    if is_blank s.text || not (is_utc s.timestamp) || is_blank s.speaker
    then err application_validation
    else ok s

pub data LiveTranscriptionStatusKind : Type 0 where
  capture_active processing delayed gap permission_error device_error : LiveTranscriptionStatusKind
  provider_error stopping stopped : LiveTranscriptionStatusKind

-- A status has its kind and the sequence of its chunk; its message is left out.
pub record LiveTranscriptionChunkResult : Type 0 where
  pub chunk_sequence : ℕ
  pub accepted_segments : List ProcessedTranscriptSegment
  pub skipped_silence : Bool
  pub status : Option (LiveTranscriptionStatusKind × ℕ)

-- `transcription_segment.speaker or "Unknown"`
abbrev pub speaker_or_unknown : Option Text → Text
speaker_or_unknown none = codes "Unknown"
speaker_or_unknown (some []) = codes "Unknown"
speaker_or_unknown (some (c ∷ s)) = c ∷ s

-- What is persisted for one meeting, if it exists: each use case reads it and saves it.
abbrev pub Stored : Type 0
Stored = Option Meeting

-- `AddTranscriptUseCase.execute`: the meeting is read, changed, saved and committed, or the call
-- raises and nothing is saved. The pending events, which are not persisted, stay in the model.
unfoldable pub add_transcript_execute : ℕ → Text → Text → DateTime → Stored → Result (ℕ × Stored)
unfolding add_transcript
add_transcript_execute id speaker text at none = err lookup_error
add_transcript_execute id speaker text at (some m) = do
  (entry, m') ← add_transcript id speaker text at m
  ok (entry.id, some m')

module _ (lower : Text → Text) (max_overlap : ℕ) (uuid : ℕ → ℕ) where
  -- The time of a segment within its chunk.
  abbrev pub segment_time : CapturedAudioChunk → TranscriptionSegment → DateTime
  segment_time chunk s = record {
    instant = chunk.capture_started_at.instant + s.start_seconds;
    offset = chunk.capture_started_at.offset;
  }

  -- The loop over the provider's segments, from the text before and the number of calls of
  -- `uuid4` so far. What was saved stays saved if a later segment raises.
  unfoldable pub process_segments :
      CapturedAudioChunk
      → List TranscriptionSegment
      → Option Text
      → ℕ
      → Stored
      → Result (List ProcessedTranscriptSegment) × Stored
  process_segments chunk [] previous n stored = (ok [], stored)
  process_segments chunk (s ∷ ss) previous n stored =
      let speaker = speaker_or_unknown s.speaker in
      let skipped = process_segments chunk ss previous n stored in
      elim (deduplicate lower max_overlap previous s.text) [
        | none ↦ skipped
        | some text ↦
            elim (add_transcript_execute (uuid n) speaker text (segment_time chunk s) stored) [
              | err e ↦ (err e, stored)
              | ok saved ↦
                  let rest = process_segments chunk ss (some text) (suc n) saved.1 in
                  let segment : ProcessedTranscriptSegment = record {
                    transcript_id = saved.0;
                    text = text;
                    timestamp = segment_time chunk s;
                    source = chunk.source;
                    speaker = speaker;
                  } in
                  elim (segment_post_init segment) [
                    | err e ↦ (err e, saved.1)
                    | ok built ↦ (rest.0 >>= (λ found. ok (built ∷ found)), rest.1)
                  ]
            ]
      ]

  -- The result of the use case once the provider has answered.
  abbrev pub chunk_result :
      CapturedAudioChunk → List ProcessedTranscriptSegment → LiveTranscriptionChunkResult
  chunk_result chunk accepted = record {
    chunk_sequence = chunk.sequence;
    accepted_segments = accepted;
    skipped_silence = is_empty accepted;
    status = none;
  }

  -- `ProcessLiveAudioChunkUseCase.execute`
  unfoldable pub execute :
      Result (List TranscriptionSegment)
      → CapturedAudioChunk
      → Option Text
      → Stored
      → Result LiveTranscriptionChunkResult × Stored
  execute (err e) chunk previous stored = (err e, stored)
  execute (ok []) chunk previous stored = (ok (chunk_result chunk []), stored)
  execute (ok (s ∷ ss)) chunk previous stored =
      let done = process_segments chunk (s ∷ ss) previous 0 stored in
      (done.0 >>= (λ accepted. ok (chunk_result chunk accepted)), done.1)
