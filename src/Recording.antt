-- ===== src/Recording.antt =====
-- Local recordings: their metadata (backend/app/application/dto/recordings) and the services and
-- use cases that change or read it (backend/app/application). One child for each part.
pub mod Metadata
pub mod Validity
pub mod Deletion
pub mod Stored
pub mod Expiry
pub mod Timing
pub mod Capture
pub mod Retention
pub mod Seek
pub mod Rows
pub mod Segments
pub mod Work
pub mod Erasure
pub mod CleanupResult
pub mod Cleanup
pub mod Reconcile
