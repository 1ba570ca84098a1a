-- ===== src/Review.antt =====
-- Reviews and translations of a meeting: dividing its transcript into batches, merging the results,
-- and the use cases that make and store the artifacts
-- (backend/app/application/services/meeting_review_batcher.py and meeting_review_merger.py,
-- backend/app/application/use_cases/generate_meeting_review.py and
-- generate_meeting_translation.py).
pub mod Table
pub mod Batcher
pub mod Artifact
pub mod Merger
pub mod Generation
pub mod Translation
