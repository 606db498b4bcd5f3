-- ===== src/DryRun.antt =====
-- The dry run of a rule over the archive: internal/rules/dryrun.go and
-- internal/httpapi/rules_dryrun.go.
pub mod Stored
pub mod Handler
pub mod Agrees
pub mod Scanned
pub mod Examples
