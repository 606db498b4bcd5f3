-- ===== src/Rules/Evaluate.antt =====
-- `Evaluate`, `evaluateLeaf`, the matchers and `FirstMatch` of internal/rules/rules.go.
use marchi.Prelude.{
  String, Bool, true, false, not, Option, none, some, List, [], ◌∷◌, if◌then◌else◌,
}
use marchi.Prelude.Int.{ltb_ℤ, eqb_ℤ}
use marchi.Rules.Node
use marchi.Rules.Node.{
  LogicalOp, no_op, op_and, op_or, ConditionType, RuleNode, node, RuleNodes, nil, cons, Rule,
  Candidate,
}
use marchi.Rules.Parse.{GoLib, parse_bool, parse_int, cut_at, equal_fold}

-- `v, err := e; return err == nil && test(v)`
abbrev pub parsed_and {ℓ} : {A : Type ℓ} → Option A → (A → Bool) → Bool
parsed_and none test = false
parsed_and (some v) test = test v

-- A loop that returns true at the first member that passes.
unfoldable pub any {ℓ} : {A : Type ℓ} → (A → Bool) → List A → Bool
any test [] = false
any test (x ∷ xs) = if test x then true else any test xs

abbrev pub same_bool : Bool → Bool → Bool
same_bool true b = b
same_bool false b = not b

module _ (lib : GoLib) where
  abbrev pub regex_matches : String → String → Bool
  regex_matches pattern s = parsed_and (lib.compile pattern) (λ re. re s)

  abbrev pub any_regex_matches : String → List String → Bool
  any_regex_matches pattern ss = parsed_and (lib.compile pattern) (λ re. any re ss)

  abbrev pub addr_domain_equals : String → String → Bool
  addr_domain_equals addr domain_want = parsed_and (cut_at addr) (λ d. equal_fold lib d domain_want)

  abbrev pub any_addr_domain_equals : List String → String → Bool
  any_addr_domain_equals addrs domain_want = any (λ a. addr_domain_equals a domain_want) addrs

  unfoldable pub evaluate_leaf : ConditionType → String → Candidate → Bool
  evaluate_leaf Node.from_contains value c = regex_matches value c.from
  evaluate_leaf Node.from_domain value c = addr_domain_equals c.from_addr value
  evaluate_leaf Node.from_exact value c = equal_fold lib c.from_addr value
  evaluate_leaf Node.to_contains value c = any_regex_matches value c.to
  evaluate_leaf Node.to_domain value c = any_addr_domain_equals c.to_addrs value
  evaluate_leaf Node.subject_contains value c = regex_matches value c.subject
  evaluate_leaf Node.has_attachments value c =
      parsed_and (parse_bool value) (λ want. same_bool c.attached want)
  evaluate_leaf Node.attachment_type value c =
      any (λ mt. equal_fold lib mt value) c.attachment_types
  evaluate_leaf Node.size_greater_than value c = parsed_and (parse_int value) (λ n. ltb_ℤ n c.size)
  evaluate_leaf Node.size_less_than value c = parsed_and (parse_int value) (λ n. ltb_ℤ c.size n)
  evaluate_leaf Node.date_after value c = parsed_and (lib.parse_time value) (λ d. ltb_ℤ d c.date)
  evaluate_leaf Node.date_before value c = parsed_and (lib.parse_time value) (λ d. ltb_ℤ c.date d)
  evaluate_leaf Node.folder_is value c = equal_fold lib c.folder_name value
  evaluate_leaf Node.folder_is_not value c = not (equal_fold lib c.folder_name value)
  evaluate_leaf Node.account_is value c = parsed_and (parse_int value) (λ n. eqb_ℤ c.account_id n)
  evaluate_leaf _ value c = false

  -- The loops over the children return at the first child that decides.
  unfoldable mutual
    pub evaluate : RuleNode → Candidate → Bool
    evaluate (node no_op children type value) c = evaluate_leaf type value c
    evaluate (node op_and children type value) c = evaluate_and children c
    evaluate (node op_or children type value) c = evaluate_or children c
    evaluate (node _ children type value) c = false

    pub evaluate_and : RuleNodes → Candidate → Bool
    evaluate_and nil c = true
    evaluate_and (cons child children) c =
        if evaluate child c then evaluate_and children c else false

    pub evaluate_or : RuleNodes → Candidate → Bool
    evaluate_or nil c = false
    evaluate_or (cons child children) c = if evaluate child c then true else evaluate_or children c

  unfoldable pub first_match : List Rule → Candidate → Option Rule
  first_match [] c = none
  first_match (r ∷ rules) c =
      let rest = first_match rules c in if evaluate r.conditions c then some r else rest
