-- ===== src/Objects.antt =====
-- Encrypted objects in the bucket: internal/s3store/encrypt.go and the `LazyLoader` of
-- internal/s3store/cache.go.
pub mod Seal
pub mod Load
pub mod Held
pub mod Served
pub mod Examples
