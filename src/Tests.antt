-- ===== src/Tests.antt =====
-- The theorems at concrete inputs.
mod Meetings
mod Recordings
mod Seeks
mod Reviews
mod Lives
mod Assists
mod Captures
mod Sessions
mod Maintenance
mod Generations
mod Frames
mod Segments
mod Gates
mod Orchestrators
mod Translations
