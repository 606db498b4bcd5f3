-- ===== src/Sync/Steps.antt =====
-- What the branches of the loop body do, and the body as a whole: `FetchNewMessages` of
-- internal/sync/fetch.go.
use marchi.Prelude.{
  ℕ, suc, ◌≡◌, refl, inl, inr, true, List, arith, str_eq, Bool-cases, ap, subst, sym, ◌∙◌,
}
use marchi.Rules.Node.{Rule, RuleAction}
use marchi.Rules.Parse.{GoLib}
use marchi.Sync.Message.{Message, Parsed}
use marchi.Sync.Archive.{
  Archive, Faults, Target, archive_one, skip_one, exists_by_account_message_id, Outcome,
  update_last_uid,
}
use marchi.Sync.Fetch.{
  Fetch, is_skip, failed, skip_message, pass_duplicate, archive_message, keep_message, dispatch,
}
use marchi.Sync.Archives.{Archives, refused, stored, archive_one-Archives}
use marchi.Sync.Effect.{
  Grows, Grows-refl, IsKnown, Copied, own, other, done_of, Stop, Acted, Pass, Effect, stopped,
  passed, acted,
}
use marchi.Sync.Removed.{Removed-map, Has}

Stop-unchanged : (f : Fetch) → Stop f (failed f)
Stop-unchanged f = record {
  grows = Grows-refl f.store;
  mark = refl;
  gone = refl;
  marked = refl;
  processed = refl;
  completed = refl;
  errors = refl;
}

record_failed :
    (a : Archive) (f : Fetch)
    → Grows f.store a
    → a.last_uid ≡ f.store.last_uid
    → Stop f (failed (record f { store = a }))
record_failed a f g h = record {
  grows = g;
  mark = h;
  gone = refl;
  marked = refl;
  processed = refl;
  completed = refl;
  errors = refl;
}

module _ (lib : GoLib) (faults : Faults) (t : Target) (rules : List Rule) where
  Pass-Acted :
      (action : RuleAction) (uid : ℕ) (p : Parsed) (f g h : Fetch)
      → Acted faults.uid_plus uid g h
      → Grows f.store g.store
      → g.store.last_uid ≡ update_last_uid t.folder_id uid f.store.last_uid
      → Copied t uid p g.store
      → g.deleted ≡ f.deleted
      → g.flagged ≡ f.flagged
      → g.stats.processed ≡ f.stats.processed
      → done_of g ≡ suc (done_of f)
      → g.stats.errors ≡ f.stats.errors
      → Pass faults.uid_plus t action uid p f h
  Pass-Acted action uid p f g h a grow mark copied gone marked processed completed errors = record {
    grows = subst (λ s. Grows f.store s) (sym a.store) grow;
    mark = ap (λ s. s.last_uid) a.store ∙ mark;
    fate = inr (subst (Copied t uid p) (sym a.store) copied);
    gone = λ u.
        let r =
          Removed-map faults.uid_plus uid g h (λ _. subst (Copied t uid p) (sym a.store) copied)
            a.gone u in
        (
          λ d. elim (r.0 d) [
            | inl old ↦ inl (subst (Has u) gone old)
            | inr (inl mine) ↦ inr (inl mine)
            | inr (inr (e, flag)) ↦ inr (inr (e, subst (Has u) marked flag))
          ],
          λ d. elim (r.1 d) [ inl old ↦ inl (subst (Has u) marked old) | inr mine ↦ inr mine ],
        );
    processed = a.processed ∙ processed;
    completed = a.completed ∙ completed;
    errors = a.errors ∙ errors;
  }

  Effect-skip :
      (action : RuleAction) (m : Message) (p : Parsed) (f : Fetch)
      → is_skip action ≡ true
      → Effect faults.uid_plus t action m.uid p f (skip_message lib faults t rules m f)
  unfolding skip_one
  Effect-skip action m p f h = elim (Bool-cases (faults.skipping m.uid)) [
    | inl e ↦ rw (e, skip_message, skip_one) (stopped _ (Stop-unchanged f))
    | inr e ↦
        rw (e, skip_message, skip_one)
          (passed (record {
            grows = record { rows_stay = λ test k. k; files_stay = λ test k. k };
            mark = refl;
            fate = inl h;
            gone = λ u. (λ d. inl d, λ d. inl d);
            processed = refl;
            completed = omega arith;
            errors = refl;
          }))
  ]

  Effect-duplicate :
      (action : RuleAction) (m : Message) (p : Parsed) (f : Fetch)
      → IsKnown t p f.store
      → Effect faults.uid_plus t action m.uid p f (pass_duplicate lib faults t rules action m f)
  unfolding skip_one
  Effect-duplicate action m p f h = elim (Bool-cases (faults.skipping m.uid)) [
    | inl e ↦ rw (e, pass_duplicate, skip_one) (stopped _ (Stop-unchanged f))
    | inr e ↦
        rw (e, pass_duplicate, skip_one)
          (passed (
            Pass-Acted action m.uid p f _ _ (acted lib faults t rules action m.uid _)
              (record { rows_stay = λ test k. k; files_stay = λ test k. k }) refl
              (other (record { has_id = h.has_id; known = h.known })) refl refl refl (omega arith)
              refl))
  ]

  Effect-keep :
      (action : RuleAction) (m : Message) (p : Parsed) (f : Fetch) (r : Outcome × Archive)
      → Archives t m.uid p f.store r
      → Effect faults.uid_plus t action m.uid p f
          (keep_message lib faults t rules action m r.0 (record f { store = r.1 }))
  Effect-keep action m p f _ (refused {b} g k) = stopped _ (record_failed b f g k)
  Effect-keep action m p f _ (stored {b} size index_failed g k h) = passed (
      Pass-Acted action m.uid p f _ _ (acted lib faults t rules action m.uid _) g k (own h) refl
        refl refl (omega arith) refl)

  Effect-archive :
      (action : RuleAction) (m : Message) (p : Parsed) (f : Fetch)
      → Effect faults.uid_plus t action m.uid p f (archive_message lib faults t rules action m p f)
  Effect-archive action m p f =
      Effect-keep action m p f (archive_one faults t m p f.store)
        (archive_one-Archives faults t m p f.store)

  pub dispatch-Effect :
      (action : RuleAction) (m : Message) (p : Parsed) (f : Fetch)
      → Effect faults.uid_plus t action m.uid p f (dispatch lib faults t rules action m p f)
  unfolding dispatch
  dispatch-Effect action m p f = elim (Bool-cases (is_skip action)) [
    | inl a ↦ rw (a, dispatch) (Effect-skip action m p f a)
    | inr a ↦ elim (Bool-cases (str_eq p.md.message_id "")) [
      | inl b ↦ rw (a, b, dispatch) (Effect-archive action m p f)
      | inr b ↦ elim (Bool-cases (faults.checking m.uid)) [
        | inl c ↦ rw (a, b, c, dispatch) (stopped _ (Stop-unchanged f))
        | inr c ↦
            elim (Bool-cases
              (exists_by_account_message_id t.account_id p.md.message_id f.store.rows)) [
                | inl d ↦
                    rw (a, b, c, d, dispatch)
                      (Effect-duplicate action m p f (record { has_id = b; known = d }))
                | inr d ↦ rw (a, b, c, d, dispatch) (Effect-archive action m p f)
              ]
      ]
    ]
  ]
