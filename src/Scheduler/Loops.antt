-- ===== src/Scheduler/Loops.antt =====
-- The two loops of `refresh` of internal/scheduler/scheduler.go, account by account.
use marchi.Prelude.{
  ℕ, ◌≡◌, refl, ◌↔◌, inl, inr, true, false, not, ◌&&◌, String, Option, none, some, List, [], ◌∷◌,
  arith, ◌==◌, if◌then◌else◌, Bool-cases, Option-cases, ap, ◌∙◌, sym, subst, Some,
}
use marchi.Scheduler.{
  run_retention, CronLib, ScheduledEntry, Scheduler, is_wanted, reconcile_one, reconcile, prune_one,
  prune, unschedule,
}
use marchi.Scheduler.Linked.{Linked, spec_of, if_valid, reconcile_one-Sets, unschedule-Sets}

module _ (lib : CronLib) where
  abbrev pub goal : List (ℕ × String) → ℕ → Option String → Option String
  goal [] a old = old
  goal ((id, spec) ∷ rest) a old = goal rest a (if id == a then if_valid lib spec else old)

  -- What a loop makes of a schedule, account by account.
  pub record Turns (f : ℕ → Option String → Option String) (s t : Scheduler lib) : Type 0 where
    pub linked : Linked lib t
    pub specs : (a : ℕ) → spec_of lib t a ≡ f a (spec_of lib s a)
    pub retention :
        (j : ℕ) (sp : String)
        → (lib.entry t.cron j ≡ some (sp, run_retention))
          ↔ (lib.entry s.cron j ≡ some (sp, run_retention))

  pub reconcile-Turns :
      (want : List (ℕ × String)) (s : Scheduler lib)
      → Linked lib s
      → Turns (goal want) s (reconcile lib want s)
  unfolding reconcile
  reconcile-Turns [] s l = record {
    linked = l;
    specs = λ a. refl;
    retention = λ j sp. (λ k. k, λ k. k);
  }
  reconcile-Turns ((id, spec) ∷ rest) s l =
      let one = reconcile_one-Sets lib id spec s l in
      let more = reconcile-Turns rest (reconcile_one lib id spec s) one.linked in
      record {
        linked = more.linked;
        specs = λ a. more.specs a ∙ ap (goal rest a) (one.specs a);
        retention = λ j sp. (
          λ k. (one.retention j sp).0 ((more.retention j sp).0 k),
          λ k. (more.retention j sp).1 ((one.retention j sp).1 k),
        );
      }

  -- What the second loop leaves of an account's entry.
  abbrev pub left : List (ℕ × String) → List ℕ → ℕ → Option String → Option String
  left want [] a old = old
  left want (id ∷ ids) a old =
      left want ids a (if (id == a) && not (is_wanted lib id want) then none else old)

  abbrev keeps : List (ℕ × String) → ℕ → ℕ → Option String → Option String
  keeps want id a old = if (id == a) && not (is_wanted lib id want) then none else old

  one_gone :
      (want : List (ℕ × String)) (id : ℕ) (s : Scheduler lib)
      → s.entries id ≡ none
      → prune_one lib want id s ≡ s
  unfolding prune_one
  one_gone want id s h = ground arith

  one_kept :
      (want : List (ℕ × String)) (id : ℕ) (s : Scheduler lib)
      → is_wanted lib id want ≡ true
      → prune_one lib want id s ≡ s
  unfolding prune_one
  one_kept want id s w = ground arith

  one_dropped :
      (want : List (ℕ × String)) (id : ℕ) (e : ScheduledEntry) (s : Scheduler lib)
      → s.entries id ≡ some e
      → is_wanted lib id want ≡ false
      → prune_one lib want id s ≡ unschedule lib id e s
  unfolding prune_one
  one_dropped want id e s h w = ground arith

  prune_one-Turns :
      (want : List (ℕ × String)) (id : ℕ) (s : Scheduler lib)
      → Linked lib s
      → Turns (keeps want id) s (prune_one lib want id s)
  prune_one-Turns want id s l = elim (Option-cases (s.entries id)) [
    | inl h ↦ subst (Turns (keeps want id) s) (sym (one_gone want id s h)) (record {
      linked = l;
      specs = λ a. ground (arith, h);
      retention = λ j sp. (λ k. k, λ k. k);
    })
    | inr (e, h) ↦ elim (Bool-cases (is_wanted lib id want)) [
      | inl w ↦ subst (Turns (keeps want id) s) (sym (one_kept want id s w)) (record {
        linked = l;
        specs = λ a. ground (arith, w);
        retention = λ j sp. (λ k. k, λ k. k);
      })
      | inr w ↦
          let u = unschedule-Sets lib id e s l h in
          subst (Turns (keeps want id) s) (sym (one_dropped want id e s h w)) (record {
            linked = u.linked;
            specs = λ a. ground (arith, w, u.specs a);
            retention = u.retention;
          })
    ]
  ]

  pub prune-Turns :
      (want : List (ℕ × String)) (ids : List ℕ) (s : Scheduler lib)
      → Linked lib s
      → Turns (left want ids) s (prune lib want ids s)
  unfolding prune
  prune-Turns want [] s l = record {
    linked = l;
    specs = λ a. refl;
    retention = λ j sp. (λ k. k, λ k. k);
  }
  prune-Turns want (id ∷ ids) s l =
      let one = prune_one-Turns want id s l in
      let more = prune-Turns want ids (prune_one lib want id s) one.linked in
      record {
        linked = more.linked;
        specs = λ a. more.specs a ∙ ap (left want ids a) (one.specs a);
        retention = λ j sp. (
          λ k. (one.retention j sp).0 ((more.retention j sp).0 k),
          λ k. (more.retention j sp).1 ((one.retention j sp).1 k),
        );
      }

  pub left_wanted :
      (want : List (ℕ × String)) (ids : List ℕ) (a : ℕ) (old : Option String)
      → is_wanted lib a want ≡ true
      → left want ids a old ≡ old
  left_wanted want [] a old w = refl
  left_wanted want (id ∷ ids) a old w = elim (Bool-cases (id == a)) [
    | inl q ↦
        let r : id ≡ a = ground arith in rw r (rw w (ground (arith, left_wanted want ids a old w)))
    | inr q ↦ rw q (left_wanted want ids a old w)
  ]

  pub left_none : (want : List (ℕ × String)) (ids : List ℕ) (a : ℕ) → left want ids a none ≡ none
  left_none want [] a = refl
  left_none want (id ∷ ids) a = elim (Bool-cases ((id == a) && not (is_wanted lib id want))) [
    | inl q ↦ rw q (left_none want ids a)
    | inr q ↦ rw q (left_none want ids a)
  ]

  pub left_gone :
      (want : List (ℕ × String)) (ids : List ℕ) (a : ℕ) (old : Option String)
      → is_wanted lib a want ≡ false
      → Some (λ k. k ≡ a) ids
      → left want ids a old ≡ none
  left_gone want [] a old w m = absurd m
  left_gone want (id ∷ ids) a old w (inl r) =
      let q : (id == a) ≡ true = ground arith in
      let v = ap (λ (j : ℕ). is_wanted lib j want) r ∙ w in rw (q, v) (left_none want ids a)
  left_gone want (id ∷ ids) a old w (inr m) = left_gone want ids a _ w m

  pub goal_wanted :
      (want : List (ℕ × String)) (a : ℕ) (old : Option String)
      → is_wanted lib a want ≡ true
      → goal want a old ≡ goal want a none
  goal_wanted [] a old w = absurd (ground arith)
  goal_wanted ((id, spec) ∷ rest) a old w = elim (Bool-cases (id == a)) [
    | inl q ↦ rw q refl
    | inr q ↦ rw q (goal_wanted rest a old (ground arith))
  ]

  pub goal_unwanted :
      (want : List (ℕ × String)) (a : ℕ) (old : Option String)
      → is_wanted lib a want ≡ false
      → goal want a old ≡ old
  goal_unwanted [] a old w = refl
  goal_unwanted ((id, spec) ∷ rest) a old w = elim (Bool-cases (id == a)) [
    | inl q ↦ absurd (ground arith)
    | inr q ↦ rw q (goal_unwanted rest a old (ground arith))
  ]
