-- ===== src/Mirror.antt =====
-- The S3 upload queue: internal/db/repo/s3uploadqueue.go and internal/s3store/uploader.go.
pub mod Queue
pub mod Uploader
pub mod Order
pub mod Backoff
pub mod Cases
pub mod Claims
pub mod Attempts
pub mod Stranded
pub mod Recorded
pub mod Examples
