-- ===== src/Retention/Runs.antt =====
-- A whole run over the archive: `Run` of internal/retention/runner.go.
