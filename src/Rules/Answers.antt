-- ===== src/Rules/Answers.antt =====
-- When `Evaluate` of internal/rules/rules.go answers true.
use marchi.Prelude.{
  Some, String, ◌≡◌, refl, ◌↔◌, inl, inr, Bool, true, not, Option, none, some, List, [], ◌∷◌, subst,
  sym, ap, Bool-cases, arith,
}
use marchi.Prelude.Int.{ℤ, eqb_ℤ, ltb_ℤ_iff, eqb_ℤ_iff}
use marchi.Rules.Node
use marchi.Rules.Node.{
  no_op, op_and, op_or, ConditionType, RuleNode, node, RuleNodes, nil, cons, Candidate,
}
use marchi.Rules.Parse.{GoLib, parse_bool, parse_int, cut_at}
use marchi.Rules.Evaluate.{
  parsed_and, any, same_bool, addr_domain_equals, evaluate_leaf, evaluate, evaluate_and,
  evaluate_or,
}
use marchi.Rules.Meaning.{
  ParsesTo, HasDomain, LeafHolds, Holds, AllHold, SomeHolds, by_leaf, by_all, by_some,
}
use marchi.Rules.Meaning

pub parsed_and_iff :
    {A : Type 0} (o : Option A) (test : A → Bool) (P : A → Type 0)
    → ((a : A) → (test a ≡ true) ↔ P a)
    → (parsed_and o test ≡ true) ↔ ParsesTo o P
parsed_and_iff none test P e = (λ h. cc, λ (a, q, p). cc)
parsed_and_iff (some a) test P e =
    (λ h. (a, refl, (e a).0 h), λ (b, q, p). (e a).1 (subst P (cc) p))

pub any_iff :
    {A : Type 0} (test : A → Bool) (P : A → Type 0) (xs : List A)
    → ((a : A) → (test a ≡ true) ↔ P a)
    → (any test xs ≡ true) ↔ Some P xs
unfolding any
any_iff test P [] e = (λ h. cc, λ h. absurd h)
any_iff test P (x ∷ xs) e = elim (Bool-cases (test x)) [
  | inl yes_x ↦ (λ h. inl ((e x).0 yes_x), λ h. rw yes_x)
  | inr no_x ↦ (
    λ h. inr ((any_iff test P xs e).0 (rw no_x at h)),
    elim [ inl p ↦ cc ((e x).1 p) | inr p ↦ rw no_x ((any_iff test P xs e).1 p) ],
  )
]

pub self_iff : (b : Bool) → (b ≡ true) ↔ (b ≡ true)
self_iff b = (λ h. h, λ h. h)

not_iff : (b : Bool) → (not b ≡ true) ↔ ¬ (b ≡ true)
not_iff b = (λ h e. ground arith, λ h. ground arith)

module _ (lib : GoLib) where
  pub domain_iff :
      (want addr : String) → (addr_domain_equals lib addr want ≡ true) ↔ HasDomain lib want addr
  domain_iff want addr = parsed_and_iff (cut_at addr) _ _ (λ d. self_iff _)

  attached_iff :
      (o : Option Bool) (b : Bool) → (parsed_and o (λ w. same_bool b w) ≡ true) ↔ (o ≡ some b)
  attached_iff none b = (λ h. cc, λ h. cc)
  attached_iff (some w) b = (λ h. ground arith, λ h. ground arith)

  account_iff : (o : Option ℤ) (a : ℤ) → (parsed_and o (λ n. eqb_ℤ a n) ≡ true) ↔ (o ≡ some a)
  account_iff none a = (λ h. cc, λ h. cc)
  account_iff (some n) a = (λ h. ap some (sym ((eqb_ℤ_iff a n).0 h)), λ h. (eqb_ℤ_iff a n).1 (cc))

  leaf_iff :
      (t : ConditionType) (v : String) (c : Candidate)
      → (evaluate_leaf lib t v c ≡ true) ↔ LeafHolds lib t v c
  unfolding evaluate_leaf
  leaf_iff Node.from_contains v c = parsed_and_iff (lib.compile v) _ _ (λ re. self_iff _)
  leaf_iff Node.from_domain v c = domain_iff v c.from_addr
  leaf_iff Node.from_exact v c = self_iff _
  leaf_iff Node.to_contains v c =
      parsed_and_iff (lib.compile v) _ _ (λ re. any_iff re _ c.to (λ s. self_iff _))
  leaf_iff Node.to_domain v c = any_iff _ _ c.to_addrs (domain_iff v)
  leaf_iff Node.subject_contains v c = parsed_and_iff (lib.compile v) _ _ (λ re. self_iff _)
  leaf_iff Node.has_attachments v c = attached_iff (parse_bool v) c.attached
  leaf_iff Node.attachment_type v c = any_iff _ _ c.attachment_types (λ mt. self_iff _)
  leaf_iff Node.size_greater_than v c = parsed_and_iff (parse_int v) _ _ (λ n. ltb_ℤ_iff n c.size)
  leaf_iff Node.size_less_than v c = parsed_and_iff (parse_int v) _ _ (λ n. ltb_ℤ_iff c.size n)
  leaf_iff Node.date_after v c = parsed_and_iff (lib.parse_time v) _ _ (λ d. ltb_ℤ_iff d c.date)
  leaf_iff Node.date_before v c = parsed_and_iff (lib.parse_time v) _ _ (λ d. ltb_ℤ_iff c.date d)
  leaf_iff Node.folder_is v c = self_iff _
  leaf_iff Node.folder_is_not v c = not_iff _
  leaf_iff Node.account_is v c = account_iff (parse_int v) c.account_id
  leaf_iff Node.no_type v c = (λ h. cc, λ h. absurd h)
  leaf_iff (Node.other_type s) v c = (λ h. cc, λ h. absurd h)

  mutual
    unfolding evaluate

    to_meaning : (n : RuleNode) (c : Candidate) → evaluate lib n c ≡ true → Holds lib c n
    to_meaning (node no_op children t v) c h = by_leaf ((leaf_iff t v c).0 h)
    to_meaning (node op_and children t v) c h = by_all (to_all children c h)
    to_meaning (node op_or children t v) c h = by_some (to_some children c h)
    to_meaning (node (Node.other_op s) children t v) c h = cc

    to_all : (ns : RuleNodes) (c : Candidate) → evaluate_and lib ns c ≡ true → AllHold lib c ns
    to_all nil c h = Meaning.AllHold.none_left
    to_all (cons n ns) c h =
        Meaning.AllHold.one_more (to_meaning n c (ground arith)) (to_all ns c (ground arith))

    to_some : (ns : RuleNodes) (c : Candidate) → evaluate_or lib ns c ≡ true → SomeHolds lib c ns
    to_some nil c h = cc
    to_some (cons n ns) c h = elim (Bool-cases (evaluate lib n c)) [
      | inl e ↦ Meaning.SomeHolds.this (to_meaning n c e)
      | inr e ↦ Meaning.SomeHolds.later (to_some ns c (ground arith))
    ]

  mutual
    unfolding evaluate

    of_meaning : (n : RuleNode) (c : Candidate) → Holds lib c n → evaluate lib n c ≡ true
    of_meaning (node no_op children t v) c (by_leaf h) = (leaf_iff t v c).1 h
    of_meaning (node op_and children t v) c (by_all h) = of_all children c h
    of_meaning (node op_or children t v) c (by_some h) = of_some children c h
    of_meaning (node (Node.other_op s) children t v) c h = elim h [ ]

    of_all : (ns : RuleNodes) (c : Candidate) → AllHold lib c ns → evaluate_and lib ns c ≡ true
    of_all nil c h = refl
    of_all (cons n ns) c (Meaning.AllHold.one_more h hs) = rw (of_meaning n c h) (of_all ns c hs)

    of_some : (ns : RuleNodes) (c : Candidate) → SomeHolds lib c ns → evaluate_or lib ns c ≡ true
    of_some nil c h = elim h [ ]
    of_some (cons n ns) c (Meaning.SomeHolds.this h) = rw (of_meaning n c h)
    of_some (cons n ns) c (Meaning.SomeHolds.later h) = ground (arith, of_some ns c h)

  -- `Evaluate` answers true exactly when the tree holds of the message: a leaf by its condition
  -- at a value that parses, an "and" group by all of its children and an "or" group by one.
  pub evaluate_iff : (n : RuleNode) (c : Candidate) → (evaluate lib n c ≡ true) ↔ Holds lib c n
  evaluate_iff n c = (to_meaning n c, of_meaning n c)
