-- ===== src/Scheduler/Examples.antt =====
-- A refresh over a cron that is a list of entries: one account has changed its expression, one has
-- been deactivated and one is new.
use marchi.Prelude.{
  ℕ, suc, ◌+◌, ◌<◌, ◌≡◌, ◌↔◌, refl, Bool, true, false, not, Option, none, some, List, [], ◌∷◌,
  arith, String, ◌==◌, if◌then◌else◌, str_eq, Some,
}
use marchi.Scheduler.{
  Job, sync_account, run_retention, CronLib, Account, Scheduler, wanted, schedule, unschedule,
  reconcile_one, reconcile, prune_one, prune, refresh,
}
use marchi.Scheduler.Linked.{Linked}
use marchi.Scheduler.Refresh.{Wants, Distinct, refresh-schedules}

abbrev Table : Type 0
Table = List (ℕ × String × Job)

abbrev entry_of : Table → ℕ → Option (String × Job)
entry_of [] j = none
entry_of ((i, spec, job) ∷ rest) j = if i == j then some (spec, job) else entry_of rest j

abbrev without : ℕ → Table → Table
without id [] = []
without id ((i, spec, job) ∷ rest) =
    if id == i then without id rest else (i, spec, job) ∷ without id rest

abbrev total : Table → ℕ
total [] = 0
total ((i, spec, job) ∷ rest) = i + total rest

abbrev valid_spec : String → Bool
valid_spec spec = not (str_eq spec "every day")

abbrev add_entry : String → Job → Table → Option (ℕ × Table)
add_entry spec job c =
    if valid_spec spec then some (suc (total c), (suc (total c), spec, job) ∷ c) else none

entry_above : (c : Table) (j : ℕ) → total c < j → entry_of c j ≡ none
entry_above [] j h = refl
entry_above ((i, spec, job) ∷ rest) j h = ground (arith, entry_above rest j)

entry-without :
    (id : ℕ) (c : Table) (j : ℕ)
    → entry_of (without id c) j ≡ (if id == j then none else entry_of c j)
entry-without id [] j = ground arith
entry-without id ((i, spec, job) ∷ rest) j = ground (arith, entry-without id rest j)

abbrev cron : CronLib
cron = record {
  Cron = Table;
  entry = entry_of;
  valid = valid_spec;
  add_func = add_entry;
  remove = without;
  add_func_invalid = λ spec job c h. rw h refl;
  add_func_valid = λ spec job c h. (
    suc (total c),
    (suc (total c), spec, job) ∷ c,
    rw h refl,
    entry_above c (suc (total c)) (omega arith),
    λ j. refl,
  );
  entry-remove = entry-without;
}

abbrev idle : Scheduler cron
idle = record { cron = (1, "0 3 * * *", run_retention) ∷ []; entries = λ a. none; known = [] }

abbrev before : List Account
before =
    record { id = 1; is_active = true; sync_cron = "" }
    ∷ record { id = 2; is_active = true; sync_cron = "0 * * * *" }
    ∷ []

abbrev after : List Account
after =
    record { id = 1; is_active = true; sync_cron = "5 * * * *" }
    ∷ record { id = 2; is_active = false; sync_cron = "0 * * * *" }
    ∷ record { id = 3; is_active = true; sync_cron = "every day" }
    ∷ []

abbrev refreshed_twice : Scheduler cron
refreshed_twice =
    (refresh cron true (some 7) "*/5 * * * *" (some after)
      (refresh cron true none "*/5 * * * *" (some before) idle).1).1

jobs_after :
    refreshed_twice.cron ≡ (6, "5 * * * *", sync_account 1) ∷ (1, "0 3 * * *", run_retention) ∷ []
unfolding refresh reconcile reconcile_one prune prune_one wanted schedule unschedule
jobs_after = refl

idle-Linked : Linked cron idle
idle-Linked = record {
  forward = λ a e h. absurd (ground arith);
  backward = λ a j spec h. ground arith;
  valid = λ a e h. absurd (ground arith);
  listed = λ a e h. absurd (ground arith);
}

before-Distinct : Distinct before
before-Distinct = omega arith

refresh-schedules_example :
    let t = (refresh cron true none "*/5 * * * *" (some before) idle).1 in
    Linked cron t
    × (((i : ℕ) × (entry_of t.cron i ≡ some ("0 * * * *", sync_account 2)))
        ↔ Some (Wants cron "*/5 * * * *" 2 "0 * * * *") before)
    × ((entry_of t.cron 1 ≡ some ("0 * * * *", run_retention))
        ↔ (entry_of idle.cron 1 ≡ some ("0 * * * *", run_retention)))
refresh-schedules_example =
    refresh-schedules cron "*/5 * * * *" true none before idle 2 1 "0 * * * *" idle-Linked
      before-Distinct
