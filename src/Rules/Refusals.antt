-- ===== src/Rules/Refusals.antt =====
-- When `Evaluate` of internal/rules/rules.go answers false.
use marchi.Prelude.{
  ℕ, zero, suc, String, ◌≡◌, refl, ◌↔◌, inl, inr, Bool, true, false, not, Option, none, some, List,
  [], ◌∷◌, subst, All, Bool-cases, arith,
}
use marchi.Prelude.Int.{ltb_ℤ_iff, eqb_ℤ_iff}
use marchi.Rules.Node
use marchi.Rules.Node.{
  no_op, op_and, op_or, ConditionType, RuleNode, node, RuleNodes, nil, cons, Candidate,
}
use marchi.Rules.Parse.{GoLib, parse_bool, parse_int}
use marchi.Rules.Validate.{validate, max_depth}
use marchi.Rules.Evaluate.{
  parsed_and, any, same_bool, addr_domain_equals, evaluate_leaf, evaluate, evaluate_and,
  evaluate_or,
}
use marchi.Rules.WellFormed.{Parses, LeafValue, WellFormed, AllWellFormed, validate_iff}
use marchi.Rules.WellFormed
use marchi.Rules.Meaning.{
  ParsesTo, HasDomain, LeafRefuted, Refuted, AllRefuted, SomeRefuted, leaf_fails, some_fails,
  all_fail,
}
use marchi.Rules.Meaning
use marchi.Rules.Answers.{domain_iff}

refused_iff :
    {A : Type 0} (o : Option A) (test : A → Bool) (P : A → Type 0)
    → ((a : A) → (test a ≡ false) ↔ P a)
    → Parses o
    → (parsed_and o test ≡ false) ↔ ParsesTo o P
refused_iff none test P e (a, q) = cc
refused_iff (some a) test P e p = (λ h. (a, refl, (e a).0 h), λ (b, q, r). (e a).1 (subst P (cc) r))

none_pass_iff :
    {A : Type 0} (test : A → Bool) (P : A → Type 0) (xs : List A)
    → ((a : A) → (test a ≡ false) ↔ P a)
    → (any test xs ≡ false) ↔ All P xs
unfolding any
none_pass_iff test P [] e = (λ h. tt, λ h. refl)
none_pass_iff test P (x ∷ xs) e = elim (Bool-cases (test x)) [
  | inl yes_x ↦ (λ h. cc (rw yes_x at h), λ h. cc ((e x).1 h.0))
  | inr no_x ↦ (
    λ h. ((e x).0 no_x, (none_pass_iff test P xs e).0 (rw no_x at h)),
    λ h. rw no_x ((none_pass_iff test P xs e).1 h.1),
  )
]

negated : {P : Type 0} (b : Bool) → (b ≡ true) ↔ P → (b ≡ false) ↔ ¬ P
negated true e = (λ h. cc, λ h. absurd (h (e.0 refl)))
negated false e = (λ h p. cc (e.1 p), λ h. refl)

same : (b : Bool) → (b ≡ false) ↔ (b ≡ false)
same b = (λ h. h, λ h. h)

module _ (lib : GoLib) where
  no_domain_iff :
      (want addr : String) → (addr_domain_equals lib addr want ≡ false) ↔ ¬ HasDomain lib want addr
  no_domain_iff want addr = negated _ (domain_iff lib want addr)

  not_attached_iff :
      (o : Option Bool) (b : Bool)
      → Parses o
      → (parsed_and o (λ w. same_bool b w) ≡ false) ↔ (o ≡ some (not b))
  not_attached_iff none b (w, q) = cc
  not_attached_iff (some w) b p = (λ h. ground arith, λ h. ground arith)

  leaf_iff :
      (t : ConditionType) (v : String) (c : Candidate)
      → LeafValue lib t v
      → (evaluate_leaf lib t v c ≡ false) ↔ LeafRefuted lib t v c
  unfolding evaluate_leaf
  leaf_iff Node.from_contains v c p = refused_iff (lib.compile v) _ _ (λ re. same _) p
  leaf_iff Node.from_domain v c p = no_domain_iff v c.from_addr
  leaf_iff Node.from_exact v c p = negated _ (λ h. h, λ h. h)
  leaf_iff Node.to_contains v c p =
      refused_iff (lib.compile v) _ _ (λ re. none_pass_iff re _ c.to (λ s. same _)) p
  leaf_iff Node.to_domain v c p = none_pass_iff _ _ c.to_addrs (no_domain_iff v)
  leaf_iff Node.subject_contains v c p = refused_iff (lib.compile v) _ _ (λ re. same _) p
  leaf_iff Node.has_attachments v c p = not_attached_iff (parse_bool v) c.attached p
  leaf_iff Node.attachment_type v c p =
      none_pass_iff _ _ c.attachment_types (λ mt. negated _ (λ h. h, λ h. h))
  leaf_iff Node.size_greater_than v c p =
      refused_iff (parse_int v) _ _ (λ n. negated _ (ltb_ℤ_iff n c.size)) p
  leaf_iff Node.size_less_than v c p =
      refused_iff (parse_int v) _ _ (λ n. negated _ (ltb_ℤ_iff c.size n)) p
  leaf_iff Node.date_after v c p =
      refused_iff (lib.parse_time v) _ _ (λ d. negated _ (ltb_ℤ_iff d c.date)) p
  leaf_iff Node.date_before v c p =
      refused_iff (lib.parse_time v) _ _ (λ d. negated _ (ltb_ℤ_iff c.date d)) p
  leaf_iff Node.folder_is v c p = negated _ (λ h. h, λ h. h)
  leaf_iff Node.folder_is_not v c p = (λ h. ground arith, λ h. rw h)
  leaf_iff Node.account_is v c p =
      refused_iff (parse_int v) _ _ (λ n. negated _ (eqb_ℤ_iff c.account_id n)) p
  leaf_iff Node.no_type v c p = absurd p
  leaf_iff (Node.other_type s) v c p = absurd p

  mutual
    unfolding evaluate

    refutes :
        (k : ℕ) (n : RuleNode) (c : Candidate)
        → WellFormed lib k n
        → evaluate lib n c ≡ false
        → Refuted lib c n
    refutes k (node no_op _ t v) c (WellFormed.leaf p) h = leaf_fails ((leaf_iff t v c p).0 h)
    refutes (suc k) (node op_and (cons n ns) t v) c (WellFormed.group _ ws) h =
        some_fails (refutes_some k (cons n ns) c ws h)
    refutes (suc k) (node op_or (cons n ns) t v) c (WellFormed.group _ ws) h =
        all_fail (refutes_all k (cons n ns) c ws h)
    refutes k (node no_op _ t v) c (WellFormed.group known ws) h = absurd known
    refutes k (node (Node.other_op s) _ t v) c (WellFormed.group known ws) h = absurd known
    refutes zero (node op_and (cons n ns) t v) c w h = elim w [ ]
    refutes zero (node op_or (cons n ns) t v) c w h = elim w [ ]
    refutes k (node op_and nil t v) c w h = elim w [ ]
    refutes k (node op_or nil t v) c w h = elim w [ ]

    refutes_some :
        (k : ℕ) (ns : RuleNodes) (c : Candidate)
        → AllWellFormed lib k ns
        → evaluate_and lib ns c ≡ false
        → SomeRefuted lib c ns
    refutes_some k nil c ws h = cc
    refutes_some k (cons n ns) c (WellFormed.AllWellFormed.one_more w ws) h =
        elim (Bool-cases (evaluate lib n c)) [
          | inl e ↦ Meaning.SomeRefuted.later (refutes_some k ns c ws (ground arith))
          | inr e ↦ Meaning.SomeRefuted.this (refutes k n c w e)
        ]

    refutes_all :
        (k : ℕ) (ns : RuleNodes) (c : Candidate)
        → AllWellFormed lib k ns
        → evaluate_or lib ns c ≡ false
        → AllRefuted lib c ns
    refutes_all k nil c ws h = Meaning.AllRefuted.none_left
    refutes_all k (cons n ns) c (WellFormed.AllWellFormed.one_more w ws) h =
        Meaning.AllRefuted.one_more (refutes k n c w (ground arith))
          (refutes_all k ns c ws (ground arith))

  -- On a tree that `Validate` accepts, where `Evaluate` answers false the tree is refuted: by a
  -- leaf's condition at a value that parses, by one child of an "and" group, by every child of an
  -- "or" group. A value that does not parse is never the reason.
  pub evaluate-refutes :
      (n : RuleNode) (c : Candidate)
      → validate lib n ≡ none
      → evaluate lib n c ≡ false
      → Refuted lib c n
  evaluate-refutes n c valid h = refutes max_depth n c ((validate_iff lib n).0 valid) h
