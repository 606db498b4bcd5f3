-- ===== src/Rules/WellFormed.antt =====
-- What `Validate` accepts, described without its code.
use marchi.Prelude.{
  ℕ, zero, suc, ◌+◌, ◌≤◌, String, ◌≡◌, ◌≢◌, refl, ◌↔◌, Option, none, some, arith, eq_iff,
}
use marchi.Rules.Node
use marchi.Rules.Node.{
  LogicalOp, no_op, op_and, op_or, ConditionType, no_type, RuleNode, node, RuleNodes, nil, cons,
}
use marchi.Rules.Parse.{GoLib, parse_bool, parse_int}
use marchi.Rules.Validate.{
  RuleError, max_depth, or_error, not_empty, validate_leaf_value, validate_depth, validate_children,
  validate,
}

abbrev pub Parses {ℓ} : {A : Type ℓ} → Option A → Type ℓ
Parses {A} o = (a : A) × (o ≡ some a)

abbrev pub IsKnown : LogicalOp → Type 0
IsKnown op_and = Unit
IsKnown op_or = Unit
IsKnown _ = ⊥

module _ (lib : GoLib) where
  -- The value is one that the condition can use.
  abbrev pub LeafValue : ConditionType → String → Type 0
  LeafValue Node.from_contains v = Parses (lib.compile v)
  LeafValue Node.to_contains v = Parses (lib.compile v)
  LeafValue Node.subject_contains v = Parses (lib.compile v)
  LeafValue Node.from_domain v = v ≢ ""
  LeafValue Node.from_exact v = v ≢ ""
  LeafValue Node.to_domain v = v ≢ ""
  LeafValue Node.attachment_type v = v ≢ ""
  LeafValue Node.folder_is v = v ≢ ""
  LeafValue Node.folder_is_not v = v ≢ ""
  LeafValue Node.has_attachments v = Parses (parse_bool v)
  LeafValue Node.size_greater_than v = Parses (parse_int v)
  LeafValue Node.size_less_than v = Parses (parse_int v)
  LeafValue Node.date_after v = Parses (lib.parse_time v)
  LeafValue Node.date_before v = Parses (lib.parse_time v)
  LeafValue Node.account_is v = Parses (parse_int v)
  LeafValue Node.no_type v = ⊥
  LeafValue (Node.other_type s) v = ⊥

  -- `WellFormed k n`: at most `k` groups lie one inside another.
  mutual
    pub data WellFormed : ℕ → RuleNode → Type 0 where
      leaf :
          {k : ℕ} {children : RuleNodes} {t : ConditionType} {v : String}
          → LeafValue t v
          → WellFormed k (node no_op children t v)
      group :
          {k : ℕ} {op : LogicalOp} {child : RuleNode} {children : RuleNodes} {v : String}
          → IsKnown op
          → AllWellFormed k (cons child children)
          → WellFormed (suc k) (node op (cons child children) no_type v)

    pub data AllWellFormed : ℕ → RuleNodes → Type 0 where
      none_left : {k : ℕ} → AllWellFormed k nil
      one_more :
          {k : ℕ} {child : RuleNode} {children : RuleNodes}
          → WellFormed k child
          → AllWellFormed k children
          → AllWellFormed k (cons child children)

or_error_iff {ℓ} : {A : Type ℓ} (o : Option A) (e : RuleError) → (or_error o e ≡ none) ↔ Parses o
or_error_iff none e = (λ h. cc, λ (a, h). cc)
or_error_iff (some a) e = (λ h. (a, refl), λ h. refl)

not_empty_iff : (v : String) → (not_empty v ≡ none) ↔ (v ≢ "")
not_empty_iff v = (λ h. ground (arith, eq_iff v ""), λ h. ground (arith, eq_iff v ""))

module _ (lib : GoLib) where
  LeafValue-iff :
      (t : ConditionType) (v : String) → (validate_leaf_value lib t v ≡ none) ↔ LeafValue lib t v
  unfolding validate_leaf_value
  LeafValue-iff Node.from_contains v = or_error_iff (lib.compile v) _
  LeafValue-iff Node.to_contains v = or_error_iff (lib.compile v) _
  LeafValue-iff Node.subject_contains v = or_error_iff (lib.compile v) _
  LeafValue-iff Node.from_domain v = not_empty_iff v
  LeafValue-iff Node.from_exact v = not_empty_iff v
  LeafValue-iff Node.to_domain v = not_empty_iff v
  LeafValue-iff Node.attachment_type v = not_empty_iff v
  LeafValue-iff Node.folder_is v = not_empty_iff v
  LeafValue-iff Node.folder_is_not v = not_empty_iff v
  LeafValue-iff Node.has_attachments v = or_error_iff (parse_bool v) _
  LeafValue-iff Node.size_greater_than v = or_error_iff (parse_int v) _
  LeafValue-iff Node.size_less_than v = or_error_iff (parse_int v) _
  LeafValue-iff Node.date_after v = or_error_iff (lib.parse_time v) _
  LeafValue-iff Node.date_before v = or_error_iff (lib.parse_time v) _
  LeafValue-iff Node.account_is v = or_error_iff (parse_int v) _
  LeafValue-iff Node.no_type v = (λ h. cc, λ h. absurd h)
  LeafValue-iff (Node.other_type s) v = (λ h. cc, λ h. absurd h)

  leaf_lem :
      (children : RuleNodes) (t : ConditionType) (v : String) (depth : ℕ)
      → (validate_depth lib (node no_op children t v) depth ≡ none) ↔ LeafValue lib t v
  unfolding validate_depth
  leaf_lem children no_type v depth = (λ h. cc, λ h. absurd h)
  leaf_lem children t v depth = LeafValue-iff t v

  -- The tests of a group, with its children's result `r`.
  group_lem :
      (op : LogicalOp) (child : RuleNode) (children : RuleNodes) (v : String) (depth : ℕ)
      → IsKnown op
      → (validate_depth lib (node op (cons child children) no_type v) depth ≡ none)
        ↔ ((depth ≤ max_depth) × (validate_children lib (cons child children) (depth + 1) ≡ none))
  unfolding validate_depth
  group_lem no_op child children v depth known = absurd known
  group_lem op_and child children v depth known =
      (λ h. (ground arith, ground arith), λ (le, h). ground arith)
  group_lem op_or child children v depth known =
      (λ h. (ground arith, ground arith), λ (le, h). ground arith)
  group_lem (Node.other_op s) child children v depth known = absurd known

  not_group :
      (op : LogicalOp) (children : RuleNodes) (t : ConditionType) (v : String) (depth : ℕ)
      → op ≢ no_op
      → validate_depth lib (node op children t v) depth ≡ none
      → IsKnown op × (t ≡ no_type) × (children ≢ nil)
  unfolding validate_depth
  not_group op_and nil no_type v depth ne h = cc
  not_group op_and (cons c cs) no_type v depth ne h = (tt, refl, λ e. cc)
  not_group op_or nil no_type v depth ne h = cc
  not_group op_or (cons c cs) no_type v depth ne h = (tt, refl, λ e. cc)
  not_group no_op children t v depth ne h = absurd (ne refl)
  not_group op_and children t v depth ne h = cc
  not_group op_or children t v depth ne h = cc
  not_group (Node.other_op s) children no_type v depth ne h = cc
  not_group (Node.other_op s) children t v depth ne h = absurd (cc)

  children_lem :
      (n : RuleNode) (ns : RuleNodes) (depth : ℕ)
      → (validate_children lib (cons n ns) depth ≡ none)
        ↔ ((validate_depth lib n depth ≡ none) × (validate_children lib ns depth ≡ none))
  unfolding validate_children
  children_lem n ns depth = (λ h. (ground arith, ground arith), λ (a, b). rw a b)

  no_children_lem : (depth : ℕ) → validate_children lib nil depth ≡ none
  unfolding validate_children
  no_children_lem depth = refl

  mutual
    accepts :
        (k depth : ℕ) (n : RuleNode)
        → depth + k ≡ max_depth + 1
        → WellFormed lib k n
        → validate_depth lib n depth ≡ none
    accepts k depth (node no_op children t v) e (leaf h) = (leaf_lem children t v depth).1 h
    accepts (suc k) depth (node op (cons child children) no_type v) e (group known ws) =
        (group_lem op child children v depth known).1
          (omega arith, accepts_all k (depth + 1) (cons child children) (omega arith) ws)

    accepts_all :
        (k depth : ℕ) (ns : RuleNodes)
        → depth + k ≡ max_depth + 1
        → AllWellFormed lib k ns
        → validate_children lib ns depth ≡ none
    accepts_all k depth nil e w = no_children_lem depth
    accepts_all k depth (cons n ns) e (one_more w ws) =
        (children_lem n ns depth).1 (accepts k depth n e w, accepts_all k depth ns e ws)

  mutual
    sound :
        (k depth : ℕ) (n : RuleNode)
        → depth + k ≡ max_depth + 1
        → validate_depth lib n depth ≡ none
        → WellFormed lib k n
    sound k depth (node no_op children t v) e h = leaf ((leaf_lem children t v depth).0 h)
    sound k depth (node op nil t v) e h = absurd ((not_group op nil t v depth (λ q. cc) h).2 refl)
    sound zero depth (node op (cons child children) t v) e h =
        let (known, no_t, _) = not_group op (cons child children) t v depth (λ q. cc) h in
        absurd (omega (arith, ((group_lem op child children v depth known).0 (rw no_t at h)).0))
    sound (suc k) depth (node op (cons child children) t v) e h =
        let (known, no_t, _) = not_group op (cons child children) t v depth (λ q. cc) h in
        rw no_t (
          group known (
            sound_all k (depth + 1) (cons child children) (omega arith)
              ((group_lem op child children v depth known).0 (rw no_t at h)).1))

    sound_all :
        (k depth : ℕ) (ns : RuleNodes)
        → depth + k ≡ max_depth + 1
        → validate_children lib ns depth ≡ none
        → AllWellFormed lib k ns
    sound_all k depth nil e h = none_left
    sound_all k depth (cons n ns) e h =
        let (a, b) = (children_lem n ns depth).0 h in
        one_more (sound k depth n e a) (sound_all k depth ns e b)

  -- `Validate` accepts exactly the trees in which every node is a leaf whose value its condition
  -- can use, or a group with a known operator and at least one child, and in which at most three
  -- groups lie one inside another.
  pub validate_iff : (n : RuleNode) → (validate lib n ≡ none) ↔ WellFormed lib max_depth n
  unfolding validate
  validate_iff n = (sound 3 1 n (omega arith), accepts 3 1 n (omega arith))
