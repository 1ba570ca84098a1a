-- ===== src/Live/Buffer.antt =====
-- The bounded buffer of captured chunks (backend/app/infrastructure/audio/bounded_chunk_buffer.py).
-- Each method holds the condition's lock from its start to its end; a `get` that has to wait is
-- a result of its own, and is made again when a `put` or `close` wakes it.
pub mod Fifo
use ai_meeting_copilot.Prelude.{
  ℕ, Bool, true, false, Option, none, some, List, [], ◌∷◌, ◌++◌, arith, ◌==◌, if◌then◌else◌, length,
  ◌>>=◌, ◌>>◌, raise_if, application_validation, runtime_error, Result, ok, err,
}

pub record BoundedAudioChunkBuffer (A : Type 0) : Type 0 where
  pub max_size : ℕ
  pub chunks : List A
  pub is_closed : Bool

-- What `get` returns while it has to wait is no chunk.
pub data Taken (A : Type 0) : Type 0 where
  taken : A → Taken A
  waits : Taken A

module _ {A : Type 0} where
  unfoldable pub buffer_init : ℕ → Result (BoundedAudioChunkBuffer A)
  buffer_init max_size =
      if max_size == 0
      then err application_validation
      else ok (record { max_size = max_size; chunks = []; is_closed = false })

  -- `popleft` on a full buffer: the oldest chunk, and the others.
  abbrev pub make_room : ℕ → List A → Option A × List A
  make_room max_size [] = (none, [])
  make_room max_size (c ∷ cs) = if length (c ∷ cs) == max_size then (some c, cs) else (none, c ∷ cs)

  unfoldable pub put : A → BoundedAudioChunkBuffer A → Result (Option A × BoundedAudioChunkBuffer A)
  put chunk b = do
    raise_if b.is_closed runtime_error
    let room = make_room b.max_size b.chunks
    ok (room.0, record b { chunks = room.1 ++ (chunk ∷ []) })

  -- `get`, by the list of chunks.
  abbrev pub take_first :
      List A → BoundedAudioChunkBuffer A → Result (Taken A × BoundedAudioChunkBuffer A)
  take_first [] b = if b.is_closed then err runtime_error else ok (waits, b)
  take_first (c ∷ cs) b = ok (taken c, record b { chunks = cs })

  unfoldable pub get : BoundedAudioChunkBuffer A → Result (Taken A × BoundedAudioChunkBuffer A)
  get b = take_first b.chunks b

  unfoldable pub close : BoundedAudioChunkBuffer A → BoundedAudioChunkBuffer A
  close b = if b.is_closed then b else record b { is_closed = true }
