-- ===== src/Tests/Sessions.antt =====
-- The theorem about a session at a concrete input.
use ai_meeting_copilot.Prelude.{
  ℕ, ◌+◌, refl, true, Option, none, some, [], ◌∷◌, Result, ok, pos, Text,
}
use ai_meeting_copilot.Live.Chunk.{mixed, CapturedAudioChunk, LiveTranscriptionChunkResult}
use ai_meeting_copilot.Live.Session.{process_chunk, calls}
use ai_meeting_copilot.Live.Session.Unbuffered.{new_session, Passes, calls-Passes}

abbrev chunk_of : ℕ → CapturedAudioChunk
chunk_of n = record {
  meeting_id = 1;
  sequence = n;
  capture_started_at = record { instant = n; offset = some (pos 0) };
  source = mixed;
}

-- A processor that counts its calls and hears nothing.
abbrev silence : CapturedAudioChunk → Option Text → ℕ → Result LiveTranscriptionChunkResult × ℕ
silence chunk previous n = (
  ok (record {
    chunk_sequence = chunk.sequence;
    accepted_segments = [];
    skipped_silence = true;
    status = none;
  }),
  n + 1,
)

calls-Passes_example :
    let now =
      calls silence (some (chunk_of 0) ∷ some (chunk_of 1) ∷ []) (new_session 1 mixed 3, 0) in
    Passes silence (chunk_of 2) now.1 now.0
unfolding process_chunk
calls-Passes_example =
    calls-Passes silence (some (chunk_of 0) ∷ some (chunk_of 1) ∷ []) (chunk_of 2) 1 mixed 3 0 refl
      refl refl
