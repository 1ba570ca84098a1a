-- ===== src/Tests/Frames.antt =====
-- The theorem about binary frames at a frame of three bytes of audio.
use ai_meeting_copilot.Prelude.{
  ℕ, ◌≡◌, refl, none, some, List, [], ◌∷◌, ◌++◌, arith, if◌then◌else◌, ok, pos, Text, codes, ◌=ᵗ◌,
}
use ai_meeting_copilot.Recording.Metadata.{nanoseconds}
use ai_meeting_copilot.Live.Chunk.{microphone}
use ai_meeting_copilot.Protocol.Frame.{
  AudioChunkFrameMetadata, Formats, frame_metadata_post_init, utc_suffix, metadata_to_payload,
  header, build_audio_chunk_frame, parse_audio_chunk_frame, wav,
}
use ai_meeting_copilot.Protocol.Frame.Bytes.{no_plus}
use ai_meeting_copilot.Protocol.Frame.RoundTrip.{Reads, parse-build}
use ai_meeting_copilot.Tests.Recordings.{at}

abbrev metadata : AudioChunkFrameMetadata
metadata = record {
  session_id = 5;
  sequence = pos 0;
  capture_started_at = at 1000;
  source = microphone;
  audio_format = wav;
  sample_rate_hz = pos 16000;
  channels = pos 1;
  overlap_seconds = nanoseconds (pos 500000000);
  upstream_pending_chunks = pos 2;
  byte_length = pos 3;
}

abbrev written_date : Text
written_date = codes "2026-01-01T00:00:00"

-- Formats that know one id, one time and one object.
abbrev writing : Formats
writing = record {
  dumps = λ payload. codes "{}";
  loads = λ bytes. none;
  uuid_text = λ id. codes "5";
  parse_uuid = λ t. if t =ᵗ codes "5" then some 5 else none;
  isoformat = λ t. written_date ++ utc_suffix;
  fromisoformat = λ t. if t =ᵗ (written_date ++ utc_suffix) then some (at 1000) else none;
}

abbrev formats : Formats
formats = record writing {
  loads =
      λ bytes. if bytes =ᵗ codes "{}" then some (metadata_to_payload writing metadata) else none;
}

reads : Reads formats metadata
unfolding metadata_to_payload no_plus
reads = record {
  json = refl;
  uuid = refl;
  date = written_date;
  no_offset = refl;
  written = refl;
  read = refl;
}

valid : frame_metadata_post_init metadata ≡ ok metadata
unfolding frame_metadata_post_init
valid = refl

abbrev frame : List ℕ
frame = header formats 2 ++ (codes "{}" ++ (1 ∷ 2 ∷ 3 ∷ []))

built : build_audio_chunk_frame formats metadata (1 ∷ 2 ∷ 3 ∷ []) ≡ ok frame
unfolding build_audio_chunk_frame metadata_to_payload
built = refl

parse-build_example : parse_audio_chunk_frame formats 524288 frame ≡ ok (metadata, 1 ∷ 2 ∷ 3 ∷ [])
parse-build_example =
    parse-build formats metadata reads 524288 (1 ∷ 2 ∷ 3 ∷ []) frame valid (omega arith)
      (omega arith) built
