-- ===== src/Live/Session/Unbuffered.antt =====
-- The buffer of a session between its calls
-- (backend/app/infrastructure/audio/live_transcription_session.py).
use mathlib.Core.Path.{subst}
use ai_meeting_copilot.Prelude.{
  ℕ, ◌≡◌, refl, sym, inl, inr, Bool, true, false, Option, none, some, List, [], ◌∷◌, ◌==◌, ==_iff,
  Bool-cases, Result, err, ok, Text,
}
use ai_meeting_copilot.Live.Buffer.{put, get, close}
use ai_meeting_copilot.Live.Chunk.{AudioSource, CapturedAudioChunk, LiveTranscriptionChunkResult}
use ai_meeting_copilot.Live.Session.{
  same_source, last_text, session_init, stop, answer, process_buffered, process_chunk, call, calls,
  BufferedLiveTranscriptionSession,
}

-- A session between two calls.
abbrev pub idle : ℕ → AudioSource → ℕ → Option Text → Bool → BufferedLiveTranscriptionSession
idle meeting source size previous ends = record {
  meeting_id = meeting;
  source = source;
  buffer = record { max_size = size; chunks = []; is_closed = ends };
  previous_accepted_text = previous;
  is_stopping = ends;
}

-- A new session over an empty buffer of this size.
abbrev pub new_session : ℕ → AudioSource → ℕ → BufferedLiveTranscriptionSession
new_session meeting source size =
    session_init meeting source (record { max_size = size; chunks = []; is_closed = false })

module _ {S : Type 0}
    (processor : CapturedAudioChunk
      → Option Text
      → S
      → Result LiveTranscriptionChunkResult × S) where
  pass_chunk :
      (chunk : CapturedAudioChunk) (meeting : ℕ) (source : AudioSource) (size : ℕ)
      (previous : Option Text) (store : S)
      → process_buffered processor chunk (idle meeting source size previous false) store
        ≡ answer processor chunk none
            (idle meeting source size previous false)
            (processor chunk previous store)
  unfolding process_buffered put get
  pass_chunk chunk meeting source size previous store = refl

  -- A session that is not stopping answers a chunk of its own meeting and source with what the
  -- processor answers for this chunk and the text before it: nothing is dropped, no status of a
  -- gap is added, the buffer is empty again, and the last accepted text is remembered.
  pub process_chunk-idle :
      (chunk : CapturedAudioChunk) (meeting : ℕ) (source : AudioSource) (size : ℕ)
      (previous : Option Text) (store : S)
      → chunk.meeting_id ≡ meeting
      → same_source chunk.source source ≡ true
      → process_chunk processor chunk (idle meeting source size previous false) store
        ≡ answer processor chunk none
            (idle meeting source size previous false)
            (processor chunk previous store)
  unfolding process_chunk
  process_chunk-idle chunk meeting source size previous store h k =
      rw ((==_iff chunk.meeting_id meeting).1 h, k)
        (pass_chunk chunk meeting source size previous store)

  -- A session between two calls, with the meeting, source and buffer size that are fixed for it.
  abbrev IsIdle : ℕ → AudioSource → ℕ → BufferedLiveTranscriptionSession → Type 0
  IsIdle meeting source size s =
      (previous : Option Text) × (ends : Bool) × (s ≡ idle meeting source size previous ends)

  answer-IsIdle :
      (chunk : CapturedAudioChunk) (meeting : ℕ) (source : AudioSource) (size : ℕ)
      (previous : Option Text) (r : Result LiveTranscriptionChunkResult × S)
      → IsIdle meeting source size
          (answer processor chunk none (idle meeting source size previous false) r).1
  answer-IsIdle chunk meeting source size previous (err e, store) = (previous, false, refl)
  answer-IsIdle chunk meeting source size previous (ok result, store) =
      (last_text result.accepted_segments previous, false, refl)

  process_chunk-IsIdle :
      (chunk : CapturedAudioChunk) (meeting : ℕ) (source : AudioSource) (size : ℕ)
      (previous : Option Text) (store : S)
      → IsIdle meeting source size
          (process_chunk processor chunk (idle meeting source size previous false) store).1
  unfolding process_chunk
  process_chunk-IsIdle chunk meeting source size previous store =
      elim (Bool-cases (chunk.meeting_id == meeting)) [
        | inr stranger ↦ rw stranger (previous, false, refl)
        | inl own ↦ elim (Bool-cases (same_source chunk.source source)) [
          | inr strange ↦ rw (own, strange) (previous, false, refl)
          | inl known ↦
              rw (own, known, pass_chunk chunk meeting source size previous store)
                (answer-IsIdle chunk meeting source size previous (processor chunk previous store))
        ]
      ]

  call-IsIdle :
      (c : Option CapturedAudioChunk) (meeting : ℕ) (source : AudioSource) (size : ℕ)
      (previous : Option Text) (ends : Bool) (store : S)
      → IsIdle meeting source size
          (call processor c (idle meeting source size previous ends, store)).0
  call-IsIdle none meeting source size previous true store = unfold stop in (previous, true, refl)
  call-IsIdle none meeting source size previous false store =
      unfold stop in unfold close in (none, true, refl)
  call-IsIdle (some chunk) meeting source size previous true store =
      unfold process_chunk in (previous, true, refl)
  call-IsIdle (some chunk) meeting source size previous false store =
      process_chunk-IsIdle chunk meeting source size previous store

  calls-IsIdle :
      (cs : List (Option CapturedAudioChunk)) (meeting : ℕ) (source : AudioSource) (size : ℕ)
      (previous : Option Text) (ends : Bool) (store : S)
      → IsIdle meeting source size
          (calls processor cs (idle meeting source size previous ends, store)).0
  calls-IsIdle [] meeting source size previous ends store = (previous, ends, refl)
  calls-IsIdle (c ∷ cs) meeting source size previous ends store =
      let (p, e, same) = call-IsIdle c meeting source size previous ends store in
      let store' = (call processor c (idle meeting source size previous ends, store)).1 in
      subst (λ s. IsIdle meeting source size (calls processor cs (s, store')).0) (sym same)
        (calls-IsIdle cs meeting source size p e store')

  -- A session whose buffer is empty, and which answers the chunk with what the processor answers
  -- for it and the text before it.
  abbrev pub Passes : CapturedAudioChunk → S → BufferedLiveTranscriptionSession → Type 0
  Passes chunk store s =
      (s.buffer.chunks ≡ [])
      × (process_chunk processor chunk s store
          ≡ answer processor chunk none s (processor chunk s.previous_accepted_text store))

  -- After any sequence of chunks and stops, a session that is not stopping has an empty buffer, and
  -- answers the next chunk of its own meeting and source with just what the processor answers for
  -- this chunk and the text before it: no chunk is dropped, and no status of a gap is added.
  pub calls-Passes :
      (cs : List (Option CapturedAudioChunk)) (chunk : CapturedAudioChunk) (meeting : ℕ)
      (source : AudioSource) (size : ℕ) (store : S)
      → chunk.meeting_id ≡ meeting
      → same_source chunk.source source ≡ true
      → let now = calls processor cs (new_session meeting source size, store) in
        now.0.is_stopping ≡ false → Passes chunk now.1 now.0
  calls-Passes cs chunk meeting source size store h k =
      let (p, e, same) = calls-IsIdle cs meeting source size none false store in
      let after = (calls processor cs (new_session meeting source size, store)).1 in
      subst (λ s. s.is_stopping ≡ false → Passes chunk after s) (sym same)
        (λ running. (refl, passes p e running after))
    where
      passes :
          (p : Option Text) (e : Bool)
          → e ≡ false
          → (after : S)
          → process_chunk processor chunk (idle meeting source size p e) after
            ≡ answer processor chunk none (idle meeting source size p e) (processor chunk p after)
      passes p true r after = cc
      passes p false r after = process_chunk-idle chunk meeting source size p after h k
