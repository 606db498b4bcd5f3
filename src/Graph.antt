-- ===== src/Graph.antt =====
-- The Microsoft Graph connector: internal/sync/msgraph_sync.go.
pub mod Server
pub mod Folders
pub mod Sync
pub mod Delta
pub mod Run
pub mod Effects
pub mod Trace
pub mod Fetched
pub mod Turned
pub mod Turns
pub mod Caught
pub mod Tree
pub mod Ends
pub mod Examples
