-- ===== src/Scheduler.antt =====
-- The schedule of internal/scheduler/scheduler.go: `refresh` and the retention job of `Start`.
pub mod Linked
pub mod Loops
pub mod Refresh
pub mod Examples
use marchi.Prelude.{
  ℕ, ◌*◌, ◌≡◌, String, Bool, true, false, Option, none, some, List, [], ◌∷◌, map, keep, leb, ltb,
  ◌==◌, if◌then◌else◌, str_eq,
}

-- What a cron entry runs.
pub data Job : Type 0 where
  sync_account : ℕ → Job
  run_retention : Job

-- The cron of robfig/cron: a table of jobs by entry id. A job is added under an id of its own if
-- its expression parses, and is removed by its id.
pub record CronLib : Type 1 where
  pub Cron : Type 0
  pub entry : Cron → ℕ → Option (String × Job)
  pub valid : String → Bool
  pub add_func : String → Job → Cron → Option (ℕ × Cron)
  pub remove : ℕ → Cron → Cron
  pub add_func_invalid :
      (spec : String) (job : Job) (c : Cron) → valid spec ≡ false → add_func spec job c ≡ none
  pub add_func_valid :
      (spec : String) (job : Job) (c : Cron)
      → valid spec ≡ true
      → (id : ℕ) × (c' : Cron) × (add_func spec job c ≡ some (id, c'))
        × (entry c id ≡ none)
        × ((j : ℕ) → entry c' j ≡ (if id == j then some (spec, job) else entry c j))
  pub entry-remove :
      (id : ℕ) (c : Cron) (j : ℕ) → entry (remove id c) j ≡ (if id == j then none else entry c j)

pub record Account : Type 0 where
  pub id : ℕ
  pub is_active : Bool
  pub sync_cron : String

pub record ScheduledEntry : Type 0 where
  pub entry_id : ℕ
  pub spec : String

-- 500 * 1024 * 1024
abbrev pub disk_space_low_threshold_bytes : ℕ
disk_space_low_threshold_bytes = 500 * 1024 * 1024

-- The free space that a notification reports: `free` is `none` where it cannot be read.
unfoldable pub check_disk_space : Bool → Option ℕ → Option ℕ
check_disk_space has_notifier none = none
check_disk_space has_notifier (some free) =
    if has_notifier
    then (if leb disk_space_low_threshold_bytes free then none else some free)
    else none

abbrev pub set_entry :
    ℕ → Option ScheduledEntry → (ℕ → Option ScheduledEntry) → ℕ → Option ScheduledEntry
set_entry id e entries a = if id == a then e else entries a

module _ (lib : CronLib) where
  -- `entries` is the map from account ids, and `known` has its keys, in the order in which the
  -- loop over the map visits them; a key may be there that has been deleted.
  pub record Scheduler : Type 0 where
    pub cron : lib.Cron
    pub entries : ℕ → Option ScheduledEntry
    pub known : List ℕ

  -- Accounts in the order in which the loop over `wanted` visits them. Account ids are a key.
  unfoldable pub wanted : String → List Account → List (ℕ × String)
  wanted default_schedule accounts =
      map (λ a. (a.id, if str_eq a.sync_cron "" then default_schedule else a.sync_cron))
        (keep (λ a. a.is_active) accounts)

  abbrev pub is_wanted : ℕ → List (ℕ × String) → Bool
  is_wanted id [] = false
  is_wanted id ((j, spec) ∷ rest) = if j == id then true else is_wanted id rest

  -- The entry is taken off the cron and the map.
  unfoldable pub unschedule : ℕ → ScheduledEntry → Scheduler → Scheduler
  unschedule id e s = record s {
    cron = lib.remove e.entry_id s.cron;
    entries = set_entry id none s.entries;
  }

  abbrev pub scheduled : ℕ → String → Option (ℕ × lib.Cron) → Scheduler → Scheduler
  scheduled id spec none s = record s { entries = set_entry id none s.entries }
  scheduled id spec (some (entry_id, cron)) s = record {
    cron = cron;
    entries = set_entry id (some (record { entry_id = entry_id; spec = spec })) s.entries;
    known = id ∷ s.known;
  }

  unfoldable pub schedule : ℕ → String → Scheduler → Scheduler
  schedule id spec s = scheduled id spec (lib.add_func spec (sync_account id) s.cron) s

  -- An entry with another expression loses its cron entry first; the map is written after.
  unfoldable pub reconcile_one : ℕ → String → Scheduler → Scheduler
  reconcile_one id spec s = elim (s.entries id) [
    | none ↦ schedule id spec s
    | some e ↦
        if str_eq e.spec spec
        then s
        else schedule id spec (record s { cron = lib.remove e.entry_id s.cron })
  ]

  unfoldable pub reconcile : List (ℕ × String) → Scheduler → Scheduler
  reconcile [] s = s
  reconcile ((id, spec) ∷ rest) s = reconcile rest (reconcile_one id spec s)

  unfoldable pub prune_one : List (ℕ × String) → ℕ → Scheduler → Scheduler
  prune_one want id s = elim (s.entries id) [
    | none ↦ s
    | some e ↦ if is_wanted id want then s else unschedule id e s
  ]

  unfoldable pub prune : List (ℕ × String) → List ℕ → Scheduler → Scheduler
  prune want [] s = s
  prune want (id ∷ ids) s = prune want ids (prune_one want id s)

  abbrev pub refreshed : String → Option (List Account) → Scheduler → Scheduler
  refreshed default_schedule none s = s
  refreshed default_schedule (some accounts) s =
      let want = wanted default_schedule accounts in
      let t = reconcile want s in prune want t.known t

  -- `accounts` is `none` where they cannot be listed. The first part of the result is the low disk
  -- notification.
  unfoldable pub refresh :
      Bool → Option ℕ → String → Option (List Account) → Scheduler → Option ℕ × Scheduler
  refresh has_notifier free default_schedule accounts s =
      (check_disk_space has_notifier free, refreshed default_schedule accounts s)

  -- The part of `Start` between the first refresh and the start of the cron.
  abbrev pub with_retention : Option (ℕ × lib.Cron) → Scheduler → Scheduler
  with_retention none s = s
  with_retention (some (entry_id, cron)) s = record s { cron = cron }

  unfoldable pub start :
      Bool
      → String
      → Bool
      → Option ℕ
      → String
      → Option (List Account)
      → Scheduler
      → Option ℕ × Scheduler
  start has_retention retention_cron has_notifier free default_schedule accounts s =
      let r = refresh has_notifier free default_schedule accounts s in
      let spec = if str_eq retention_cron "" then "0 3 * * *" else retention_cron in
      if has_retention
      then (r.0, with_retention (lib.add_func spec run_retention r.1.cron) r.1)
      else r
