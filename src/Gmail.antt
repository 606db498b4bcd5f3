-- ===== src/Gmail.antt =====
-- The Gmail connector: internal/sync/gmailapi_sync.go.
pub mod Server
pub mod Sync
pub mod Run
pub mod Effects
pub mod Trace
pub mod Accounted
pub mod Stuck
pub mod Pages
pub mod Examples
