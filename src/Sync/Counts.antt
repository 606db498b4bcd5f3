-- ===== src/Sync/Counts.antt =====
-- The statistics of `FetchNewMessages` of internal/sync/fetch.go.
use marchi.Prelude.{suc, ◌+◌, ◌≤◌, ◌≡◌, refl, Bool, Option, List, arith}
use marchi.Rules.Node.{Rule}
use marchi.Rules.Parse.{GoLib}
use marchi.Sync.Message.{Message}
use marchi.Sync.Archive.{Faults, Target}
use marchi.Sync.Fetch.{Fetch, Failure, fetch_new_messages, Server}
use marchi.Sync.Effect.{done_of}
use marchi.Sync.Trace.{Trace, finish, cancel, halt, go, fetched}

module _ (lib : GoLib) (faults : Faults) (t : Target) (rules : List Rule) where
  -- The counts of a fetch grow by one message at a time, by an error at the last one at most.
  record Counted (f f' : Fetch) : Type 0 where
    balance :
        f'.stats.processed + (done_of f + f.stats.errors)
        ≡ f.stats.processed + (done_of f' + f'.stats.errors)
    one_error : f'.stats.errors ≤ suc f.stats.errors

  Trace-Counted :
      {ms : List Message} {f : Fetch} {r : Option Failure × Fetch}
      → Trace lib faults t rules ms f r
      → Counted f r.1
  Trace-Counted (finish f) = record { balance = refl; one_error = omega arith }
  Trace-Counted (cancel m ms f) = record { balance = refl; one_error = omega arith }
  Trace-Counted (halt m ms e f' h) = record {
    balance = omega (arith, h.processed, h.completed, h.errors);
    one_error = omega (arith, h.errors);
  }
  Trace-Counted (go m ms f' h rest) =
      let c = Trace-Counted rest in
      record {
        balance = omega (arith, h.processed, h.completed, h.errors, c.balance);
        one_error = omega (arith, h.errors, c.one_error);
      }

  -- The statistics of one fetch add up: each message that was attempted is archived, skipped, a
  -- duplicate or an error, and a fetch has at most one error, since it stops there.
  pub fetch_new_messages-counts :
      (sync_enabled stopping : Bool) (server : Server) (f : Fetch)
      → let s = (fetch_new_messages lib faults t rules sync_enabled stopping server f).1.stats in
        (s.processed ≡ s.archived + s.skipped + s.duplicates + s.errors) × (s.errors ≤ 1)
  fetch_new_messages-counts sync_enabled stopping server f =
      fetched lib faults t rules
        (λ r.
          (r.stats.processed
            ≡ r.stats.archived + r.stats.skipped + r.stats.duplicates + r.stats.errors)
          × (r.stats.errors ≤ 1))
        sync_enabled stopping server f (refl, omega arith)
        (λ r tr. let c = Trace-Counted tr in (omega (arith, c.balance), c.one_error))
