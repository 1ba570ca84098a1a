-- ===== src/Live/Session.antt =====
-- One live transcription session over its buffer and the processing of a chunk
-- (backend/app/infrastructure/audio/live_transcription_session.py). The processor is a parameter,
-- with the store that it changes; the processing lock makes each call one step.
pub mod Unbuffered
use ai_meeting_copilot.Prelude.{
  ℕ, Bool, true, false, not, Option, none, some, List, [], ◌∷◌, arith, ◌==◌, if◌then◌else◌, take,
  get_last?, application_validation, runtime_error, other_error, Result, err, ok, Text,
}
use ai_meeting_copilot.Live.Buffer.{put, get, close, BoundedAudioChunkBuffer, taken, waits}
use ai_meeting_copilot.Live.Chunk.{
  AudioSource, mixed, microphone, system_audio, CapturedAudioChunk, ProcessedTranscriptSegment,
  processing, gap, LiveTranscriptionChunkResult,
}

pub record BufferedLiveTranscriptionSession : Type 0 where
  pub meeting_id : ℕ
  pub source : AudioSource
  pub buffer : BoundedAudioChunkBuffer CapturedAudioChunk
  pub previous_accepted_text : Option Text
  pub is_stopping : Bool

-- `chunk.source is self._source`
abbrev pub same_source : AudioSource → AudioSource → Bool
same_source mixed mixed = true
same_source microphone microphone = true
same_source system_audio system_audio = true
same_source _ _ = false

-- The text behind which the next chunk continues.
abbrev pub last_text : List ProcessedTranscriptSegment → Option Text → Option Text
last_text accepted previous = elim (get_last? accepted) [ none ↦ previous | some s ↦ some s.text ]

-- The result with the notice of a dropped chunk.
abbrev pub with_gap :
    Option CapturedAudioChunk
    → CapturedAudioChunk
    → LiveTranscriptionChunkResult
    → LiveTranscriptionChunkResult
with_gap none chunk result = result
with_gap (some dropped) chunk result = record result { status = some (gap, chunk.sequence) }

-- The session before its first chunk.
abbrev pub session_init :
    ℕ → AudioSource → BoundedAudioChunkBuffer CapturedAudioChunk → BufferedLiveTranscriptionSession
session_init meeting source buffer = record {
  meeting_id = meeting;
  source = source;
  buffer = buffer;
  previous_accepted_text = none;
  is_stopping = false;
}

-- `stop`
unfoldable pub stop : BufferedLiveTranscriptionSession → BufferedLiveTranscriptionSession
unfolding close
stop s =
    if s.is_stopping
    then s
    else record s { is_stopping = true; buffer = close s.buffer; previous_accepted_text = none }

module _ {S : Type 0}
    (processor : CapturedAudioChunk
      → Option Text
      → S
      → Result LiveTranscriptionChunkResult × S) where
  -- What `process_chunk` returns once the processor has answered.
  abbrev pub answer :
      CapturedAudioChunk
      → Option CapturedAudioChunk
      → BufferedLiveTranscriptionSession
      → Result LiveTranscriptionChunkResult × S
      → Result LiveTranscriptionChunkResult × BufferedLiveTranscriptionSession × S
  answer chunk dropped s (err e, store) = (err e, s, store)
  answer chunk dropped s (ok result, store) = (
    ok (with_gap dropped chunk result),
    record s {
      previous_accepted_text = last_text result.accepted_segments s.previous_accepted_text;
    },
    store,
  )

  -- `process_chunk` behind its guards: put the chunk, take one and process it. A `get` that waits
  -- would wait for ever, as only this session puts chunks, and is an error here.
  unfoldable pub process_buffered :
      CapturedAudioChunk
      → BufferedLiveTranscriptionSession
      → S
      → Result LiveTranscriptionChunkResult × BufferedLiveTranscriptionSession × S
  unfolding put get
  process_buffered chunk s store = elim (put chunk s.buffer) [
    | err e ↦ (err e, s, store)
    | ok (dropped, b) ↦ elim (get b) [
      | err e ↦ (err e, record s { buffer = b }, store)
      | ok (waits, b') ↦ (err other_error, record s { buffer = b' }, store)
      | ok (taken c, b') ↦
          answer chunk dropped (record s { buffer = b' })
            (processor c s.previous_accepted_text store)
    ]
  ]

  unfoldable pub process_chunk :
      CapturedAudioChunk
      → BufferedLiveTranscriptionSession
      → S
      → Result LiveTranscriptionChunkResult × BufferedLiveTranscriptionSession × S
  unfolding process_buffered
  process_chunk chunk s store =
      if s.is_stopping
      then (err runtime_error, s, store)
      else if not (chunk.meeting_id == s.meeting_id)
      then (err application_validation, s, store)
      else if not (same_source chunk.source s.source)
      then (err application_validation, s, store)
      else process_buffered chunk s store

  -- A call on the session: a chunk, or none for `stop`.
  abbrev pub call :
      Option CapturedAudioChunk
      → BufferedLiveTranscriptionSession × S
      → BufferedLiveTranscriptionSession × S
  call none (s, store) = (stop s, store)
  call (some chunk) (s, store) = let done = process_chunk chunk s store in (done.1, done.2)

  abbrev pub calls :
      List (Option CapturedAudioChunk)
      → BufferedLiveTranscriptionSession × S
      → BufferedLiveTranscriptionSession × S
  calls [] now = now
  calls (c ∷ cs) now = calls cs (call c now)
