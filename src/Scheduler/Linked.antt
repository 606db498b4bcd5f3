-- ===== src/Scheduler/Linked.antt =====
-- The cron and the map of internal/scheduler/scheduler.go speak of the same jobs, step by step.
use marchi.Prelude.{
  ℕ, ◌≡◌, ◌≢◌, ◌↔◌, inl, inr, true, false, String, Option, none, some, arith, ◌==◌, if◌then◌else◌,
  str_eq, eq_iff, Bool-cases, Option-cases, sym, subst, Some,
}
use marchi.Scheduler.{
  sync_account, run_retention, CronLib, ScheduledEntry, Scheduler, set_entry, unschedule, scheduled,
  schedule, reconcile_one,
}

module _ (lib : CronLib) where
  -- Every entry of the map has its cron entry, which runs that account under that expression, and
  -- every cron entry that syncs an account is the one in the map.
  pub record Linked (s : Scheduler lib) : Type 0 where
    pub forward :
        (a : ℕ) (e : ScheduledEntry)
        → s.entries a ≡ some e
        → lib.entry s.cron e.entry_id ≡ some (e.spec, sync_account a)
    pub backward :
        (a j : ℕ) (spec : String)
        → lib.entry s.cron j ≡ some (spec, sync_account a)
        → s.entries a ≡ some (record { entry_id = j; spec = spec })
    pub valid : (a : ℕ) (e : ScheduledEntry) → s.entries a ≡ some e → lib.valid e.spec ≡ true
    pub listed : (a : ℕ) (e : ScheduledEntry) → s.entries a ≡ some e → Some (λ k. k ≡ a) s.known

  -- So for every account but one, of which the cron has no entry.
  record Clear (id : ℕ) (s : Scheduler lib) : Type 0 where
    forward :
        (a : ℕ) (e : ScheduledEntry)
        → id ≢ a
        → s.entries a ≡ some e
        → lib.entry s.cron e.entry_id ≡ some (e.spec, sync_account a)
    backward :
        (a j : ℕ) (spec : String)
        → id ≢ a
        → lib.entry s.cron j ≡ some (spec, sync_account a)
        → s.entries a ≡ some (record { entry_id = j; spec = spec })
    gone : (j : ℕ) (spec : String) → lib.entry s.cron j ≢ some (spec, sync_account id)
    valid : (a : ℕ) (e : ScheduledEntry) → id ≢ a → s.entries a ≡ some e → lib.valid e.spec ≡ true
    listed :
        (a : ℕ) (e : ScheduledEntry) → id ≢ a → s.entries a ≡ some e → Some (λ k. k ≡ a) s.known

  Clear-none : (id : ℕ) (s : Scheduler lib) → Linked s → s.entries id ≡ none → Clear id s
  Clear-none id s l h = record {
    forward = λ a e ne. l.forward a e;
    backward = λ a j spec ne. l.backward a j spec;
    gone = λ j spec k. ground (arith, h, l.backward id j spec k);
    valid = λ a e ne. l.valid a e;
    listed = λ a e ne. l.listed a e;
  }

  Clear-remove :
      (id : ℕ) (e : ScheduledEntry) (s : Scheduler lib)
      → Linked s
      → s.entries id ≡ some e
      → Clear id (record s { cron = lib.remove e.entry_id s.cron })
  Clear-remove id e s l h = record {
    forward = λ a e' ne k.
        ground (
          arith,
          lib.entry-remove e.entry_id s.cron e'.entry_id,
          l.forward id e h,
          l.forward a e' k,
        );
    backward =
        λ a j spec ne k. ground (arith, lib.entry-remove e.entry_id s.cron j, l.backward a j spec);
    gone =
        λ j spec k. ground (arith, lib.entry-remove e.entry_id s.cron j, l.backward id j spec, h);
    valid = λ a e ne. l.valid a e;
    listed = λ a e ne. l.listed a e;
  }

  Linked-none :
      (id : ℕ) (s : Scheduler lib)
      → Clear id s
      → Linked (record s { entries = set_entry id none s.entries })
  Linked-none id s c = record {
    forward = λ a e k. ground (arith, c.forward a e);
    backward = λ a j spec k. ground (arith, c.backward a j spec, c.gone j spec);
    valid = λ a e k. ground (arith, c.valid a e);
    listed = λ a e k. elim (Bool-cases (id == a)) [
      | inl q ↦ absurd (ground arith)
      | inr q ↦ c.listed a e (ground arith) (ground arith)
    ];
  }

  -- The expression under which an account is scheduled.
  abbrev pub spec_of : Scheduler lib → ℕ → Option String
  spec_of s a = elim (s.entries a) [ none ↦ none | some e ↦ some e.spec ]

  abbrev pub if_valid : String → Option String
  if_valid spec = if lib.valid spec then some spec else none

  -- What one step makes of a schedule: account `id` is now under `spec`, the jobs of the other
  -- accounts and of the retention are as they were.
  pub record Sets (id : ℕ) (spec : Option String) (s t : Scheduler lib) : Type 0 where
    pub linked : Linked t
    pub specs : (a : ℕ) → spec_of t a ≡ (if id == a then spec else spec_of s a)
    pub retention :
        (j : ℕ) (sp : String)
        → (lib.entry t.cron j ≡ some (sp, run_retention))
          ↔ (lib.entry s.cron j ≡ some (sp, run_retention))

  schedule_valid :
      (id : ℕ) (spec : String) (s : Scheduler lib) (j : ℕ) (cron : lib.Cron)
      → Clear id s
      → lib.valid spec ≡ true
      → lib.entry s.cron j ≡ none
      → ((i : ℕ)
          → lib.entry cron i
            ≡ (if j == i then some (spec, sync_account id) else lib.entry s.cron i))
      → Sets id (if_valid spec) s (scheduled lib id spec (some (j, cron)) s)
  schedule_valid id spec s j cron c v free after = record {
    linked = record {
      forward = λ a e k. ground (arith, after e.entry_id, c.forward a e, free);
      backward = λ a i sp k. ground (arith, after i, c.backward a i sp, c.gone i sp);
      valid = λ a e k. ground (arith, c.valid a e);
      listed = λ a e k. elim (Bool-cases (id == a)) [
        | inl q ↦ inl (ground arith)
        | inr q ↦ inr (c.listed a e (ground arith) (ground arith))
      ];
    };
    specs = λ a. ground arith;
    retention = λ i sp. (λ h. ground (arith, after i), λ h. ground (arith, after i, free));
  }

  schedule-Sets :
      (id : ℕ) (spec : String) (s : Scheduler lib)
      → Clear id s
      → Sets id (if_valid spec) s (schedule lib id spec s)
  unfolding schedule
  schedule-Sets id spec s c = elim (Bool-cases (lib.valid spec)) [
    | inl v ↦
        let (j, cron, added, free, after) = lib.add_func_valid spec (sync_account id) s.cron v in
        rw added (schedule_valid id spec s j cron c v free after)
    | inr v ↦ rw (lib.add_func_invalid spec (sync_account id) s.cron v) (record {
      linked = Linked-none id s c;
      specs = λ a. ground arith;
      retention = λ i sp. (λ h. h, λ h. h);
    })
  ]

  -- A cron entry that syncs an account is not the retention's.
  removed_retention :
      (id j : ℕ) (e : ScheduledEntry) (s : Scheduler lib) (sp : String)
      → Linked s
      → s.entries id ≡ some e
      → (lib.entry (lib.remove e.entry_id s.cron) j ≡ some (sp, run_retention))
        ↔ (lib.entry s.cron j ≡ some (sp, run_retention))
  removed_retention id j e s sp l h = (
    λ k. ground (arith, lib.entry-remove e.entry_id s.cron j),
    λ k. ground (arith, lib.entry-remove e.entry_id s.cron j, l.forward id e h),
  )

  rescheduled :
      (id : ℕ) (e : ScheduledEntry) (spec : Option String) (s t : Scheduler lib)
      → Linked s
      → s.entries id ≡ some e
      → Sets id spec (record s { cron = lib.remove e.entry_id s.cron }) t
      → Sets id spec s t
  rescheduled id e spec s t l h r = record {
    linked = r.linked;
    specs = r.specs;
    retention = λ j sp.
        let a = r.retention j sp in
        let b = removed_retention id j e s sp l h in (λ k. b.0 (a.0 k), λ k. a.1 (b.1 k));
  }

  one_new :
      (id : ℕ) (spec : String) (s : Scheduler lib)
      → s.entries id ≡ none
      → reconcile_one lib id spec s ≡ schedule lib id spec s
  unfolding reconcile_one
  one_new id spec s h = ground arith

  one_same :
      (id : ℕ) (spec : String) (e : ScheduledEntry) (s : Scheduler lib)
      → s.entries id ≡ some e
      → str_eq e.spec spec ≡ true
      → reconcile_one lib id spec s ≡ s
  unfolding reconcile_one
  one_same id spec e s h q = ground arith

  one_other :
      (id : ℕ) (spec : String) (e : ScheduledEntry) (s : Scheduler lib)
      → s.entries id ≡ some e
      → str_eq e.spec spec ≡ false
      → reconcile_one lib id spec s
        ≡ schedule lib id spec (record s { cron = lib.remove e.entry_id s.cron })
  unfolding reconcile_one
  one_other id spec e s h q = ground arith

  pub reconcile_one-Sets :
      (id : ℕ) (spec : String) (s : Scheduler lib)
      → Linked s
      → Sets id (if_valid spec) s (reconcile_one lib id spec s)
  reconcile_one-Sets id spec s l = elim (Option-cases (s.entries id)) [
    | inl h ↦
        subst (Sets id (if_valid spec) s) (sym (one_new id spec s h))
          (schedule-Sets id spec s (Clear-none id s l h))
    | inr (e, h) ↦ elim (Bool-cases (str_eq e.spec spec)) [
      | inl q ↦ subst (Sets id (if_valid spec) s) (sym (one_same id spec e s h q)) (record {
        linked = l;
        specs = λ a. ground (arith, h, l.valid id e h, eq_iff e.spec spec);
        retention = λ j sp. (λ k. k, λ k. k);
      })
      | inr q ↦ subst (Sets id (if_valid spec) s) (sym (one_other id spec e s h q)) (
          rescheduled id e (if_valid spec) s _ l h (
            schedule-Sets id spec (record s { cron = lib.remove e.entry_id s.cron })
              (Clear-remove id e s l h)))
    ]
  ]

  -- An account that is not wanted any more.
  pub unschedule-Sets :
      (id : ℕ) (e : ScheduledEntry) (s : Scheduler lib)
      → Linked s
      → s.entries id ≡ some e
      → Sets id none s (unschedule lib id e s)
  unfolding unschedule
  unschedule-Sets id e s l h = rescheduled id e none s _ l h (record {
    linked = Linked-none id _ (Clear-remove id e s l h);
    specs = λ a. ground arith;
    retention = λ j sp. (λ k. k, λ k. k);
  })
