-- ===== src/Rules/YamlParse.antt =====
-- What `ParseYAML` accepts, and what `LoadYAMLFile` makes of a file that it refuses.
use marchi.Prelude.{
  ℕ, suc, ◌≡◌, ◌≢◌, refl, ◌↔◌, inl, inr, Bool, true, false, Option, none, some, List, [], ◌∷◌,
  arith, All, Option-cases, eq_iff, subst,
}
use marchi.Rules.Node.{
  Rule, RuleAction, archive, skip, archive_and_delete, archive_and_mark_read, other_action,
}
use marchi.Rules.Parse.{GoLib}
use marchi.Rules.Validate.{validate, max_depth}
use marchi.Rules.WellFormed.{WellFormed, validate_iff}
use marchi.Rules.Table.{Table}
use marchi.Rules.Yaml.{
  YamlError, parse_rule_action, parsed, refused, check_rule, check_rules, parse_yaml, contents,
  load_yaml_file,
}

abbrev IsAction : RuleAction → Type 0
IsAction (other_action s) = ⊥
IsAction _ = Unit

IsAction-iff : (a : RuleAction) → (parse_rule_action a ≡ true) ↔ IsAction a
unfolding parse_rule_action
IsAction-iff archive = (λ h. tt, λ h. refl)
IsAction-iff skip = (λ h. tt, λ h. refl)
IsAction-iff archive_and_delete = (λ h. tt, λ h. refl)
IsAction-iff archive_and_mark_read = (λ h. tt, λ h. refl)
IsAction-iff (other_action s) = (λ h. cc, λ h. absurd h)

module _ (lib : GoLib) where
  -- A rule with a name, one of the four actions and a tree that `Validate` accepts.
  abbrev pub IsAcceptable : Rule → Type 0
  IsAcceptable r = (r.name ≢ "") × IsAction r.action × WellFormed lib max_depth r.conditions

  checked :
      (i : ℕ) (r : Rule)
      → (check_rule lib i r ≡ none)
        ↔ ((r.name ≢ "") × (parse_rule_action r.action ≡ true) × (validate lib r.conditions ≡ none))
  unfolding check_rule
  checked i r = (
    λ h. (ground (arith, eq_iff r.name ""), ground arith, ground arith),
    λ (a, b, c). ground (arith, eq_iff r.name ""),
  )

  check_iff : (i : ℕ) (r : Rule) → (check_rule lib i r ≡ none) ↔ IsAcceptable r
  check_iff i r = (
    λ h.
        let (a, b, c) = (checked i r).0 h in
        (a, (IsAction-iff r.action).0 b, (validate_iff lib r.conditions).0 c),
    λ (a, b, c).
        (checked i r).1 (a, (IsAction-iff r.action).1 b, (validate_iff lib r.conditions).1 c),
  )

  check_rules_iff :
      (i : ℕ) (rules : List Rule) → (check_rules lib i rules ≡ none) ↔ All IsAcceptable rules
  unfolding check_rules
  check_rules_iff i [] = (λ h. tt, λ h. refl)
  check_rules_iff i (r ∷ rules) = elim (Option-cases (check_rule lib i r)) [
    | inl e ↦ (
      λ h. ((check_iff i r).0 e, (check_rules_iff (suc i) rules).0 (rw (e, check_rules) at h)),
      λ h. rw (e, check_rules) ((check_rules_iff (suc i) rules).1 h.1),
    )
    | inr (x, e) ↦ (λ h. cc (rw (e, check_rules) at h), λ h. cc ((check_iff i r).1 h.0))
  ]

  -- `ParseYAML` returns the rules of a file exactly when the file unmarshals to them and every
  -- one of them has a name, one of the four actions and a tree that `Validate` accepts: one bad
  -- rule refuses the whole file.
  pub parse_yaml_iff :
      (file : Option (List Rule)) (rules : List Rule)
      → (parse_yaml lib file ≡ parsed rules) ↔ ((file ≡ some rules) × All IsAcceptable rules)
  unfolding parse_yaml
  parse_yaml_iff none rules = (λ h. cc, λ h. cc (h.0))
  parse_yaml_iff (some rs) rules = elim (Option-cases (check_rules lib 0 rs)) [
    | inl e ↦ (
      λ h.
          let same : parsed rs ≡ parsed rules = rw (e, parse_yaml) at h in
          (cc, subst (All IsAcceptable) (cc) ((check_rules_iff 0 rs).0 e)),
      λ (s, good). rw (e, parse_yaml) (cc),
    )
    | inr (x, e) ↦ (
      λ h. cc (rw (e, parse_yaml) at h),
      λ (s, good). cc ((check_rules_iff 0 rs).1 (subst (All IsAcceptable) (cc) good)),
    )
  ]

  parse_yaml-refused :
      (rules : List Rule) (x : YamlError)
      → check_rules lib 0 rules ≡ some x
      → parse_yaml lib (some rules) ≡ refused x
  unfolding parse_yaml
  parse_yaml-refused rules x e = rw (e, parse_yaml)

  -- If a file holds an unacceptable rule, `LoadYAMLFile` reports an error and writes nothing.
  pub load_yaml_file-refuses :
      (fails : ℕ → Bool) (listed : Bool) (rules : List Rule) (t : Table)
      → ¬ All IsAcceptable rules
      → let r = load_yaml_file lib fails listed (contents (some rules)) t in
        (r.loaded ≡ false) × (r.error ≢ none) × (r.table ≡ t)
  unfolding load_yaml_file
  load_yaml_file-refuses fails listed rules t bad = elim (Option-cases (check_rules lib 0 rules)) [
    | inl e ↦ absurd (bad ((check_rules_iff 0 rules).0 e))
    | inr (x, e) ↦ rw (parse_yaml-refused rules x e, load_yaml_file) (refl, λ q. cc, refl)
  ]
