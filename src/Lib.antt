-- ===== src/Lib.antt =====
-- Marchi archives mail: it fetches messages from a server (internal/sync), decides by rules what
-- to do with each (internal/rules), stores it in a Maildir with a row in SQLite
-- (internal/maildir, internal/db), mirrors it to a bucket (internal/s3store), and lets old
-- messages go by a retention policy (internal/retention). A web server (internal/httpapi) stands
-- behind a password.
--
-- The files and the code that they model:
--   * Rules: internal/domain/rule.go and internal/rules. `Rules.Node` has the condition trees and
--     the candidates, `Rules.Validate` Validate, `Rules.Evaluate` Evaluate and FirstMatch,
--     `Rules.Table` the repository of internal/db/repo/rules.go, `Rules.Yaml` ParseYAML, SyncYAML
--     and LoadYAMLFile of internal/rules/yaml.go. `Rules.Parse` has the parts of strconv and
--     strings that they use; regular expressions, RFC 3339 and Unicode's folding table are the
--     fields of `GoLib`.
--   * DryRun: internal/rules/dryrun.go and internal/httpapi/rules_dryrun.go. `DryRun.Stored` has the
--     candidates built from rows and Parse of internal/mimeparse, `DryRun.Handler` the handler, over
--     the rows of `Sync.Archive`.
--   * Sync: internal/sync/fetch.go. `Sync.Message` has a fetched message with what
--     internal/mimeparse reads of it, `Sync.Archive` ArchiveOne and skipOne with their writes of
--     internal/db/repo/emails.go and internal/db/repo/folders.go, `Sync.Fetch` the loop of
--     FetchNewMessages, which asks `Rules.Evaluate` what to do with a message, with DeleteMessage
--     of internal/imapclient/store.go; `Sync.Folders` has SyncFolders of internal/sync/folders.go
--     with UpsertFolder, `Sync.Account` SyncAccount of internal/sync/account.go. `Sync.Removed`,
--     `Sync.Effect`, `Sync.Steps` and `Sync.Trace` describe a fetch as a sequence of effects, of
--     which `Sync.Accounted` and `Sync.Counts` speak; `Sync.Watermarks` and `Sync.Totals` are about
--     the sync of an account.
--   * Retention: internal/retention/runner.go. `Retention.Table` has the emails table and its
--     queries of internal/db/repo/emails.go, `Retention.Runner` Run and its stages.
--     `Retention.Sound` says what an archive is, `Retention.Steps`, `Retention.Kept` and
--     `Retention.Runs` what the messages, the stages and a run make of it.
--   * Mirror: `Mirror.Queue` has the table of internal/db/repo/s3uploadqueue.go, `Mirror.Uploader`
--     the pool of internal/s3store/uploader.go, whose dispatcher and workers are a list of actions
--     in any order.
--   * Cache: the disk cache of internal/s3store/cache.go, with the number of entries as the fuel of
--     its eviction loop, each pass of which takes one.
--   * Objects: `Objects.Seal` has EncryptObject and DecryptObject of internal/s3store/encrypt.go,
--     `Objects.Load` the LazyLoader of internal/s3store/cache.go, over `Cache` and `Vault.Cipher`.
--   * Restore: internal/restore. `Restore.Smtp` has the SMTP session, `Restore.Engine` RestoreOne,
--     which loads a message by `Objects.Load`.
--   * Lockout: internal/httpapi/unlock_lockout.go and the handler of internal/httpapi/unlock.go.
--   * Gmail: internal/sync/gmailapi_sync.go. `Gmail.Server` has what Gmail answers and the listings
--     over pages, `Gmail.Sync` the loop over a batch with its messages, `Gmail.Run`
--     SyncAccountGmailAPI with the cursor and the row of the sync log. It uses `Sync.Archive` for
--     ArchiveOne. `Gmail.Effects` and `Gmail.Trace` describe a batch as a sequence of effects.
--   * Graph: internal/sync/msgraph_sync.go. `Graph.Server` has what Microsoft Graph answers,
--     `Graph.Folders` the walk over the folders, `Graph.Sync` a message and the loop over a page,
--     `Graph.Delta` the pages of a folder's delta query with the cursor, `Graph.Run`
--     SyncAccountMSGraph. It uses `Sync.Archive` for ArchiveOne and the batch of `Gmail.Sync`.
--     `Graph.Trace`, `Graph.Fetched`, `Graph.Turned` and `Graph.Turns` follow the loops from the
--     inside out.
--   * Vault: `Vault.Cipher` has Encrypt and Decrypt of internal/security/crypto/crypto.go,
--     `Vault.Store` the key store of internal/security/masterkey/masterkey.go.
--   * Scheduler: refresh of internal/scheduler/scheduler.go with the check of the disk, and the
--     retention job of Start. `Scheduler.Linked` says how the cron and the map hang together,
--     `Scheduler.Loops` and `Scheduler.Refresh` what the loops make of them.
--   * Notify: the throttle and the MultiNotifier of internal/notify.
--   * Prelude: Boolean tests on numbers, lists measured by numbers, integers, maps, and tables with
--     a key.
--
-- How state and failure are modelled: a function takes the state that the code keeps and returns
-- the new one. The single writer of internal/db/writer makes each transaction atomic, so a write
-- is one step that happens or not. What the disk, SQLite, the index, the bucket and the servers
-- answer is a parameter (`Faults`, `Server`, `Target`, `Gmail`, `Graph`, `World`), and the
-- theorems hold for every answer unless they say otherwise. Third-party code that the model needs
-- is a record with its documented laws: `Primitives` for Argon2id and AES-GCM, `ObjectLib` for
-- HKDF, SHA-256 and base64, `CronLib` for the cron, `MailLib` for the addresses of go-message.
-- Loops are structural recursion, so that each function is total; fuel stands in the cache's
-- eviction and in the loops over the pages of Gmail and Graph, where it counts the pages, and in
-- the walk over Graph's folders, where it bounds how deep they are nested; for the two connectors
-- it is proved that a call, or the listing of its batch, ends. The decimal print of a number has
-- twenty digits at most, which is enough for 64 bits. Instants are numbers: nanoseconds for the
-- lockout, the throttle and the rules, seconds for the columns of SQLite.
--
-- Not modelled: logging and progress reports, which change nothing that is modelled; the parsing
-- of MIME (go-message), the index (Bluge), the S3, IMAP and HTTP clients, which are I/O or other
-- projects; the threads of the web server, so that unlock requests are taken one after another;
-- the flags in the names of Maildir files; what other clients do to a mailbox while a fetch runs,
-- whose flags \Deleted are those that it starts with. Search queries and the worker pool of the scheduler are
-- not modelled.
pub mod Prelude
pub mod Cache
pub mod DryRun
pub mod Gmail
pub mod Graph
pub mod Lockout
pub mod Mirror
pub mod Notify
pub mod Objects
pub mod Restore
pub mod Retention
pub mod Rules
pub mod Scheduler
pub mod Sync
pub mod Vault
