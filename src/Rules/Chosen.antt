-- ===== src/Rules/Chosen.antt =====
-- Which rule `FirstMatch` of internal/rules/rules.go picks.
use marchi.Prelude.{
  ◌≡◌, refl, ap, ◌↔◌, inl, inr, true, false, none, some, List, [], ◌∷◌, ◌++◌, arith, All,
  Bool-cases,
}
use marchi.Rules.Node.{Rule, Candidate}
use marchi.Rules.Parse.{GoLib}
use marchi.Rules.Evaluate.{evaluate, first_match}

module _ (lib : GoLib) (c : Candidate) where
  abbrev pub Passes : Rule → Type 0
  Passes r = evaluate lib r.conditions c ≡ false

  -- `r` matches, and no rule before it in `rules` does.
  abbrev pub IsFirst : List Rule → Rule → Type 0
  IsFirst rules r =
      (before : List Rule) × (after : List Rule) × (rules ≡ before ++ r ∷ after)
      × All Passes before
      × (evaluate lib r.conditions c ≡ true)

  pub chosen→first :
      (rules : List Rule) (r : Rule) → first_match lib rules c ≡ some r → IsFirst rules r
  unfolding first_match
  chosen→first [] r h = cc
  chosen→first (x ∷ rules) r h = elim (Bool-cases (evaluate lib x.conditions c)) [
    | inl e ↦ ([], rules, ground arith, tt, ground arith)
    | inr e ↦
        let (before, after, split, passed, here) = chosen→first rules r (ground arith) in
        (x ∷ before, after, ap (λ (l : List Rule). x ∷ l) split, (e, passed), here)
  ]

  first→chosen :
      (before after : List Rule) (r : Rule)
      → All Passes before
      → evaluate lib r.conditions c ≡ true
      → first_match lib (before ++ r ∷ after) c ≡ some r
  unfolding first_match
  first→chosen [] after r passed here = rw here
  first→chosen (x ∷ before) after r passed here =
      rw passed.0 (first→chosen before after r passed.1 here)

  pub none-first_match : (rules : List Rule) → (first_match lib rules c ≡ none) ↔ All Passes rules
  unfolding first_match
  none-first_match [] = (λ h. tt, λ h. refl)
  none-first_match (x ∷ rules) = elim (Bool-cases (evaluate lib x.conditions c)) [
    | inl e ↦ (λ h. cc (rw e at h), λ h. cc)
    | inr e ↦ (
      λ h. (e, (none-first_match rules).0 (rw e at h)),
      λ h. rw e ((none-first_match rules).1 h.1),
    )
  ]

-- `FirstMatch` returns a rule exactly when that rule's tree matches and no rule before it in the
-- list does; it returns nil exactly when no rule matches.
first_match_iff :
    (lib : GoLib) (rules : List Rule) (c : Candidate)
    → ((r : Rule) → (first_match lib rules c ≡ some r) ↔ IsFirst lib c rules r)
      × ((first_match lib rules c ≡ none) ↔ All (Passes lib c) rules)
first_match_iff lib rules c = (
  λ r. (
    chosen→first lib c rules r,
    λ (before, after, split, passed, here).
        rw split (first→chosen lib c before after r passed here),
  ),
  none-first_match lib c rules,
)
