-- ===== src/Protocol/Frame/RoundTrip.antt =====
-- Building a frame and parsing it
-- (backend/app/api/live_transcription/binary_frames.py).
use mathlib.Core.Path.{subst}
use ai_meeting_copilot.Prelude.{
  ℕ, suc, ◌+◌, ◌-◌, ◌≤◌, ◌<◌, ◌≡◌, refl, ap, ◌∙◌, true, false, not, some, List, ◌++◌, arith, ltb,
  ◌==◌, length, take, drop, slice, length-append, take_append, ok-injective, raise_if-ok, ok, Text,
}
use ai_meeting_copilot.Live.Chunk.{AudioSource, mixed, microphone, system_audio}
use ai_meeting_copilot.Protocol.Frame.{
  AudioChunkFrameMetadata, Formats, is_integer, frame_metadata_post_init, source_text, format_text,
  parse_source, parse_format, utc_suffix, replace_utc, normalize_timestamp, metadata_to_payload,
  metadata_from_payload, header, build_audio_chunk_frame, parse_audio_chunk_frame, AudioFormat, wav,
}
use ai_meeting_copilot.Protocol.Frame.Bytes.{
  big_endian, drop_append, ltb-false, no_plus, replace_utc_lem, normalize_timestamp_lem,
}

parse_source-text : (s : AudioSource) → parse_source (source_text s) ≡ some s
parse_source-text mixed = refl
parse_source-text microphone = refl
parse_source-text system_audio = refl

parse_format-text : (f : AudioFormat) → parse_format (format_text f) ≡ some f
parse_format-text wav = refl

-- What the formats do with one value of metadata: its object is read back from the bytes that are
-- written, its id from its text, and its time from an ISO text of UTC.
pub record Reads (formats : Formats) (m : AudioChunkFrameMetadata) : Type 0 where
  pub json :
      formats.loads (formats.dumps (metadata_to_payload formats m))
      ≡ some (metadata_to_payload formats m)
  pub uuid : formats.parse_uuid (formats.uuid_text m.session_id) ≡ some m.session_id
  pub date : Text
  pub no_offset : no_plus date ≡ true
  pub written : formats.isoformat m.capture_started_at ≡ date ++ utc_suffix
  pub read : formats.fromisoformat (date ++ utc_suffix) ≡ some m.capture_started_at

module _ (formats : Formats) (m : AudioChunkFrameMetadata) (reads : Reads formats m) where
  timestamp :
      formats.fromisoformat
        (normalize_timestamp (replace_utc (formats.isoformat m.capture_started_at)))
      ≡ some m.capture_started_at
  timestamp =
      ap (λ s. formats.fromisoformat (normalize_timestamp (replace_utc s))) reads.written
      ∙ ap (λ s. formats.fromisoformat (normalize_timestamp s))
          (replace_utc_lem reads.date reads.no_offset)
      ∙ ap formats.fromisoformat (normalize_timestamp_lem reads.date)
      ∙ reads.read

  metadata_from_payload-to :
      frame_metadata_post_init m ≡ ok m
      → metadata_from_payload formats (metadata_to_payload formats m) ≡ ok m
  unfolding metadata_from_payload metadata_to_payload
  metadata_from_payload-to v =
      rw (reads.uuid, timestamp, parse_source-text m.source, parse_format-text m.audio_format, v)

  -- The frame that the bytes of the metadata and a payload make.
  abbrev frame_of : List ℕ → List ℕ
  frame_of wav_payload =
      let bytes = formats.dumps (metadata_to_payload formats m) in
      header formats (length bytes) ++ (bytes ++ wav_payload)

  slice-frame :
      (bytes wav_payload : List ℕ)
      → slice 8 (8 + length bytes) (header formats (length bytes) ++ (bytes ++ wav_payload)) ≡ bytes
  slice-frame bytes wav_payload =
      ap (λ k. take k (bytes ++ wav_payload)) (cancel (length bytes))
      ∙ take_append bytes wav_payload
    where
      cancel : (n : ℕ) → (8 + n) - 8 ≡ n
      cancel n = omega arith

  drop-frame :
      (bytes wav_payload : List ℕ)
      → drop (8 + length bytes) (header formats (length bytes) ++ (bytes ++ wav_payload))
        ≡ wav_payload
  drop-frame bytes wav_payload =
      ap (λ k. drop k (header formats (length bytes) ++ (bytes ++ wav_payload)))
        (eight (length bytes))
      ∙ drop_append bytes wav_payload
    where
      eight : (n : ℕ) → 8 + n ≡ suc (suc (suc (suc (suc (suc (suc (suc n)))))))
      eight n = omega arith

  length-frame :
      (bytes wav_payload : List ℕ)
      → ltb (length (header formats (length bytes) ++ (bytes ++ wav_payload))) (8 + length bytes)
        ≡ false
  length-frame bytes wav_payload = ltb-false _ _ (omega (arith, length-append bytes wav_payload))

  parse-frame :
      (max_payload_bytes : ℕ) (wav_payload : List ℕ)
      → frame_metadata_post_init m ≡ ok m
      → length wav_payload ≤ max_payload_bytes
      → (max_payload_bytes == 0) ≡ false
      → not (is_integer (length wav_payload) m.byte_length) ≡ false
      → parse_audio_chunk_frame formats max_payload_bytes (frame_of wav_payload)
        ≡ ok (m, wav_payload)
  unfolding parse_audio_chunk_frame
  parse-frame most wav_payload v small positive own =
      let bytes = formats.dumps (metadata_to_payload formats m) in
      rw (
        positive,
        big_endian (length bytes),
        length-frame bytes wav_payload,
        slice-frame bytes wav_payload,
        reads.json,
        metadata_from_payload-to v,
        drop-frame bytes wav_payload,
        ltb-false most (length wav_payload) small,
        own,
      )

  -- Parsing the frame that was built of valid metadata and a payload that is not larger than
  -- permitted gives back both, where JSON, the id and the time stamp of the metadata are read
  -- back from what is written.
  pub parse-build :
      (max_payload_bytes : ℕ) (wav_payload frame : List ℕ)
      → frame_metadata_post_init m ≡ ok m
      → length wav_payload ≤ max_payload_bytes
      → 0 < max_payload_bytes
      → build_audio_chunk_frame formats m wav_payload ≡ ok frame
      → parse_audio_chunk_frame formats max_payload_bytes frame ≡ ok (m, wav_payload)
  unfolding parse_audio_chunk_frame build_audio_chunk_frame
  parse-build most wav_payload frame v small some_bytes built =
      let (own, built') = raise_if-ok _ _ _ frame built in
      let (_, made) = raise_if-ok _ _ _ frame built' in
      subst (λ f. parse_audio_chunk_frame formats most f ≡ ok (m, wav_payload))
        (ok-injective (frame_of wav_payload) frame made)
        (parse-frame most wav_payload v small (positive most some_bytes) own)
    where
      positive : (n : ℕ) → 0 < n → (n == 0) ≡ false
      positive n h = ground arith
