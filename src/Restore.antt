-- ===== src/Restore.antt =====
-- Restoring a message into a mailbox: internal/restore.
pub mod Smtp
pub mod Sent
pub mod Engine
pub mod Outcome
pub mod Delivered
pub mod Examples
