-- ===== src/Retention.antt =====
-- The retention runner: internal/retention/runner.go with the queries and writes of
-- internal/db/repo/emails.go that it uses. Instants are counted in seconds, the precision in
-- which SQLite keeps them.
pub mod Table
pub mod Runner
pub mod Sound
pub mod Steps
pub mod Kept
pub mod Runs
pub mod Examples
