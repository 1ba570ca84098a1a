-- ===== src/Protocol/Frame.antt =====
-- Binary frames of audio (backend/app/api/live_transcription/binary_frames.py, with the constants
-- of protocol.py). JSON, UUIDs and ISO timestamps are those of Python's library, taken as
-- parameters.
pub mod Bytes
pub mod RoundTrip
use ai_meeting_copilot.Prelude.{
  ℕ, zero, suc, ◌+◌, ◌*◌, ◌/◌, ◌%◌, Bool, true, false, not, ◌&&◌, ◌||◌, Option, none, some, List,
  [], ◌∷◌, ◌++◌, map, arith, ltb, leb, ◌==◌, if◌then◌else◌, length, drop, slice, all, ◌>>=◌, ◌>>◌,
  raise_if, application_validation, Result, err, ok, DateTime, is_utc, ℤ, pos, negsuc, Text, codes,
  ◌=ᵗ◌,
}
use ai_meeting_copilot.Recording.Metadata.{is_valid_seconds, missing, Seconds, nanoseconds}
use ai_meeting_copilot.Live.Chunk.{AudioSource, mixed, microphone, system_audio}

-- What `json.loads` returns, without arrays and objects inside, which are refused as any value of
-- a wrong type.
pub data Json : Type 0 where
  null : Json
  boolean : Bool → Json
  integer : ℤ → Json
  number : Seconds → Json
  string : Text → Json

pub data AudioFormat : Type 0 where
  wav : AudioFormat

pub record AudioChunkFrameMetadata : Type 0 where
  pub session_id : ℕ
  pub sequence : ℤ
  pub capture_started_at : DateTime
  pub source : AudioSource
  pub audio_format : AudioFormat
  pub sample_rate_hz : ℤ
  pub channels : ℤ
  pub overlap_seconds : Seconds
  pub upstream_pending_chunks : ℤ
  pub byte_length : ℤ

-- `json`, `uuid.UUID` and `datetime` as the frames use them. `dumps` writes the bytes of an
-- object, and `loads` reads the object of such bytes; it fails on bytes that are no UTF-8, no JSON
-- or no object.
pub record Formats : Type 0 where
  pub dumps : List (Text × Json) → List ℕ
  pub loads : List ℕ → Option (List (Text × Json))
  pub uuid_text : ℕ → Text
  pub parse_uuid : Text → Option ℕ
  pub isoformat : DateTime → Text
  pub fromisoformat : Text → Option DateTime

abbrev is_non_negative : ℤ → Bool
is_non_negative (pos n) = true
is_non_negative (negsuc n) = false

abbrev is_positive : ℤ → Bool
is_positive (pos zero) = false
is_positive (pos (suc n)) = true
is_positive (negsuc n) = false

abbrev pub is_integer : ℕ → ℤ → Bool
is_integer n (pos m) = m == n
is_integer n (negsuc m) = false

-- not (`value > 255`), of an integer that is not negative
abbrev is_at_most_255 : ℤ → Bool
is_at_most_255 (pos n) = leb n 255
is_at_most_255 (negsuc n) = true

-- `AudioChunkFrameMetadata.__post_init__`; each check raises the same exception.
unfoldable pub frame_metadata_post_init : AudioChunkFrameMetadata → Result AudioChunkFrameMetadata
frame_metadata_post_init m =
    if is_non_negative m.sequence
      && is_utc m.capture_started_at
      && is_integer 16000 m.sample_rate_hz
      && is_integer 1 m.channels
      && is_valid_seconds m.overlap_seconds
      && is_non_negative m.upstream_pending_chunks
      && is_at_most_255 m.upstream_pending_chunks
      && is_positive m.byte_length
    then ok m
    else err application_validation

-- `AUDIO_FRAME_MAGIC`, `PROTOCOL_VERSION` and `AUDIO_MESSAGE_KIND`
abbrev pub audio_frame_magic : List ℕ
audio_frame_magic = codes "AMCP"

abbrev pub protocol_version : ℕ
protocol_version = 1

abbrev pub audio_message_kind : ℕ
audio_message_kind = 1

abbrev pub source_text : AudioSource → Text
source_text mixed = codes "mixed"
source_text microphone = codes "microphone"
source_text system_audio = codes "system_audio"

abbrev pub format_text : AudioFormat → Text
format_text wav = codes "wav"

abbrev pub parse_source : Text → Option AudioSource
parse_source t =
    if t =ᵗ source_text mixed
    then some mixed
    else if t =ᵗ source_text microphone
    then some microphone
    else if t =ᵗ source_text system_audio
    then some system_audio
    else none

abbrev pub parse_format : Text → Option AudioFormat
parse_format t = if t =ᵗ format_text wav then some wav else none

-- `s.startswith(prefix)`, with what stands behind it
unfoldable pub strip_prefix : Text → Text → Option Text
strip_prefix [] s = some s
strip_prefix (c ∷ p) [] = none
strip_prefix (c ∷ p) (d ∷ s) = let rest = strip_prefix p s in if c == d then rest else none

abbrev pub utc_suffix : Text
utc_suffix = codes "+00:00"

-- `s.replace("+00:00", "Z")`, on fuel that the length of the text bounds
unfoldable pub replace_utc_from : ℕ → Text → Text
replace_utc_from zero s = s
replace_utc_from (suc fuel) [] = []
replace_utc_from (suc fuel) (c ∷ s) = elim (strip_prefix utc_suffix (c ∷ s)) [
  | some rest ↦ 90 ∷ replace_utc_from fuel rest
  | none ↦ c ∷ replace_utc_from fuel s
]

unfoldable pub replace_utc : Text → Text
replace_utc s = replace_utc_from (length s) s

-- `value.removesuffix("Z") + "+00:00" if value.endswith("Z") else value`
unfoldable pub normalize_timestamp : Text → Text
normalize_timestamp [] = []
normalize_timestamp (c ∷ []) = if c == 90 then utc_suffix else c ∷ []
normalize_timestamp (c ∷ d ∷ s) = c ∷ normalize_timestamp (d ∷ s)

abbrev pub lookup : Text → List (Text × Json) → Option Json
lookup key [] = none
lookup key ((k, v) ∷ fields) = let rest = lookup key fields in if k =ᵗ key then some v else rest

-- `_require_string`, `_require_integer` and `_require_number`; a missing key is excluded before.
abbrev pub require_string : List (Text × Json) → Text → Result Text
require_string payload key = elim (lookup key payload) [
  | some (string s) ↦ ok s
  | _ ↦ err application_validation
]

abbrev pub require_integer : List (Text × Json) → Text → Result ℤ
require_integer payload key = elim (lookup key payload) [
  | some (integer z) ↦ ok z
  | _ ↦ err application_validation
]

-- `float(value)` of an integer
abbrev pub seconds_of : ℤ → Seconds
seconds_of (pos n) = nanoseconds (pos (n * 1000000000))
seconds_of (negsuc n) = nanoseconds (negsuc (n * 1000000000 + 999999999))

abbrev pub require_number : List (Text × Json) → Text → Result Seconds
require_number payload key = elim (lookup key payload) [
  | some (integer z) ↦ ok (seconds_of z)
  | some (number x) ↦ ok x
  | _ ↦ err application_validation
]

abbrev pub expected_fields : List Text
expected_fields =
    codes "session_id"
    ∷ codes "sequence"
    ∷ codes "capture_started_at"
    ∷ codes "source"
    ∷ codes "audio_format"
    ∷ codes "sample_rate_hz"
    ∷ codes "channels"
    ∷ codes "overlap_seconds"
    ∷ codes "upstream_pending_chunks"
    ∷ codes "byte_length"
    ∷ []

abbrev is_member : Text → List Text → Bool
is_member t [] = false
is_member t (x ∷ xs) = t =ᵗ x || is_member t xs

-- `set(payload) == expected_fields`
abbrev pub has_fields : List (Text × Json) → Bool
has_fields payload =
    let keys = map (λ f. f.0) payload in
    all (λ key. is_member key expected_fields) keys
    && all (λ key. is_member key keys) expected_fields

-- `UUID(…)`, `datetime.fromisoformat(…)`, `AudioSource(…)` and `AudioFormat(…)`, whose exceptions
-- are caught and raised as another one
abbrev pub or_invalid : {A : Type 0} → Option A → Result A
or_invalid none = err application_validation
or_invalid (some a) = ok a

module _ (formats : Formats) where
  -- `_metadata_to_payload`
  unfoldable pub metadata_to_payload : AudioChunkFrameMetadata → List (Text × Json)
  metadata_to_payload m =
      (codes "audio_format", string (format_text m.audio_format))
      ∷ (codes "byte_length", integer m.byte_length)
      ∷ (codes "capture_started_at", string (replace_utc (formats.isoformat m.capture_started_at)))
      ∷ (codes "channels", integer m.channels)
      ∷ (codes "overlap_seconds", number m.overlap_seconds)
      ∷ (codes "sample_rate_hz", integer m.sample_rate_hz)
      ∷ (codes "sequence", integer m.sequence)
      ∷ (codes "session_id", string (formats.uuid_text m.session_id))
      ∷ (codes "source", string (source_text m.source))
      ∷ (codes "upstream_pending_chunks", integer m.upstream_pending_chunks)
      ∷ []

  -- `_metadata_from_payload`
  unfoldable pub metadata_from_payload : List (Text × Json) → Result AudioChunkFrameMetadata
  metadata_from_payload payload = do
    raise_if (not (has_fields payload)) application_validation
    session_text ← require_string payload (codes "session_id")
    session ← or_invalid (formats.parse_uuid session_text)
    time_text ← require_string payload (codes "capture_started_at")
    time ← or_invalid (formats.fromisoformat (normalize_timestamp time_text))
    source_name ← require_string payload (codes "source")
    origin ← or_invalid (parse_source source_name)
    format_name ← require_string payload (codes "audio_format")
    format ← or_invalid (parse_format format_name)
    sequence_number ← require_integer payload (codes "sequence")
    rate ← require_integer payload (codes "sample_rate_hz")
    channel_count ← require_integer payload (codes "channels")
    overlap ← require_number payload (codes "overlap_seconds")
    waiting ← require_integer payload (codes "upstream_pending_chunks")
    bytes ← require_integer payload (codes "byte_length")
    frame_metadata_post_init (record {
      session_id = session;
      sequence = sequence_number;
      capture_started_at = time;
      source = origin;
      audio_format = format;
      sample_rate_hz = rate;
      channels = channel_count;
      overlap_seconds = overlap;
      upstream_pending_chunks = waiting;
      byte_length = bytes;
    })

  -- The bytes before the metadata: the magic, the version, the kind, and the length of the
  -- metadata in two bytes, the larger first.
  abbrev pub header : ℕ → List ℕ
  header n = audio_frame_magic ++ (protocol_version ∷ audio_message_kind ∷ n / 256 ∷ n % 256 ∷ [])

  -- `build_audio_chunk_frame`
  unfoldable pub build_audio_chunk_frame : AudioChunkFrameMetadata → List ℕ → Result (List ℕ)
  build_audio_chunk_frame m wav_payload = do
    raise_if (not (is_integer (length wav_payload) m.byte_length)) application_validation
    let metadata_bytes = formats.dumps (metadata_to_payload m)
    raise_if (ltb 65535 (length metadata_bytes)) application_validation
    ok (header (length metadata_bytes) ++ (metadata_bytes ++ wav_payload))

  -- The statements of `parse_audio_chunk_frame` behind the length of the metadata.
  abbrev pub parse_body : ℕ → List ℕ → ℕ → Result (AudioChunkFrameMetadata × List ℕ)
  parse_body max_payload_bytes frame metadata_length = do
    let metadata_end = 8 + metadata_length
    raise_if (ltb (length frame) metadata_end) application_validation
    payload ← or_invalid (formats.loads (slice 8 metadata_end frame))
    m ← metadata_from_payload payload
    let wav_payload = drop metadata_end frame
    raise_if (ltb max_payload_bytes (length wav_payload)) application_validation
    raise_if (not (is_integer (length wav_payload) m.byte_length)) application_validation
    ok (m, wav_payload)

  -- The checks of the header. A frame of fewer than eight bytes is refused.
  abbrev pub parse_header : ℕ → List ℕ → List ℕ → Result (AudioChunkFrameMetadata × List ℕ)
  parse_header max_payload_bytes frame (a ∷ b ∷ c ∷ d ∷ version ∷ kind ∷ high ∷ low ∷ rest) = do
    raise_if (not ((a ∷ b ∷ c ∷ d ∷ []) =ᵗ audio_frame_magic)) application_validation
    raise_if (not (version == protocol_version)) application_validation
    raise_if (not (kind == audio_message_kind)) application_validation
    parse_body max_payload_bytes frame (high * 256 + low)
  parse_header max_payload_bytes frame _ = err application_validation

  -- `parse_audio_chunk_frame`
  unfoldable pub parse_audio_chunk_frame : ℕ → List ℕ → Result (AudioChunkFrameMetadata × List ℕ)
  parse_audio_chunk_frame max_payload_bytes frame = do
    raise_if (max_payload_bytes == 0) application_validation
    parse_header max_payload_bytes frame frame
