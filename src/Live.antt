-- ===== src/Live.antt =====
-- Live transcription: removing the overlap between chunks, the bounded buffer of a session, and
-- the processing of a chunk (backend/app/application/services/transcript_deduplicator.py,
-- backend/app/infrastructure/audio and
-- backend/app/application/use_cases/process_live_audio_chunk.py).
pub mod Deduplicator
pub mod Buffer
pub mod Chunk
pub mod Session
