-- ===== src/Sync.antt =====
-- The IMAP sync engine: internal/sync/fetch.go, with what it uses of internal/db/repo/emails.go
-- and internal/db/repo/folders.go.
pub mod Message
pub mod Archive
pub mod Fetch
pub mod Removed
pub mod Effect
pub mod Archives
pub mod Steps
pub mod Trace
pub mod Folders
pub mod Accounted
pub mod Counts
pub mod Watermarks
pub mod Account
pub mod Totals
pub mod Examples
