-- ===== src/Assist.antt =====
-- Assist mode: the transcript context behind the reply suggestions, the gate that lets a
-- translation run only while no speech is recognised, and the orchestrator of the enrichment of
-- transcript segments (backend/app/application/services/recent_transcript_context.py,
-- live_transcription_priority_gate.py and assist_mode_orchestrator.py).
pub mod Context
pub mod Gate
pub mod Task
pub mod Orchestrator
