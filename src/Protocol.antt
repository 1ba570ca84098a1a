-- ===== src/Protocol.antt =====
-- The wire protocol of live transcription (backend/app/api/live_transcription).
pub mod Frame
