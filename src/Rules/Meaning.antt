-- ===== src/Rules/Meaning.antt =====
-- What a condition tree says of a message, described without the code of `Evaluate`: when it
-- holds, and when it is refuted by values that parse.
use marchi.Prelude.{Some, String, ◌≡◌, ◌≢◌, true, false, not, Option, some, All}
use marchi.Prelude.Int.{◌<ℤ◌}
use marchi.Rules.Node
use marchi.Rules.Node.{
  no_op, op_and, op_or, ConditionType, RuleNode, node, RuleNodes, nil, cons, Candidate,
}
use marchi.Rules.Parse.{GoLib, parse_bool, parse_int, cut_at, equal_fold}

-- `o` parses to a value of which `P` holds.
abbrev pub ParsesTo {ℓ} : {A : Type ℓ} → Option A → (A → Type ℓ) → Type ℓ
ParsesTo {A} o P = (a : A) × (o ≡ some a) × P a

module _ (lib : GoLib) where
  abbrev pub SameText : String → String → Type 0
  SameText s t = equal_fold lib s t ≡ true

  abbrev pub HasDomain : String → String → Type 0
  HasDomain domain_want addr = ParsesTo (cut_at addr) (λ d. SameText d domain_want)

  abbrev pub LeafHolds : ConditionType → String → Candidate → Type 0
  LeafHolds Node.from_contains v c = ParsesTo (lib.compile v) (λ re. re c.from ≡ true)
  LeafHolds Node.from_domain v c = HasDomain v c.from_addr
  LeafHolds Node.from_exact v c = SameText c.from_addr v
  LeafHolds Node.to_contains v c = ParsesTo (lib.compile v) (λ re. Some (λ s. re s ≡ true) c.to)
  LeafHolds Node.to_domain v c = Some (HasDomain v) c.to_addrs
  LeafHolds Node.subject_contains v c = ParsesTo (lib.compile v) (λ re. re c.subject ≡ true)
  LeafHolds Node.has_attachments v c = parse_bool v ≡ some c.attached
  LeafHolds Node.attachment_type v c = Some (λ mt. SameText mt v) c.attachment_types
  LeafHolds Node.size_greater_than v c = ParsesTo (parse_int v) (λ n. n <ℤ c.size)
  LeafHolds Node.size_less_than v c = ParsesTo (parse_int v) (λ n. c.size <ℤ n)
  LeafHolds Node.date_after v c = ParsesTo (lib.parse_time v) (λ d. d <ℤ c.date)
  LeafHolds Node.date_before v c = ParsesTo (lib.parse_time v) (λ d. c.date <ℤ d)
  LeafHolds Node.folder_is v c = SameText c.folder_name v
  LeafHolds Node.folder_is_not v c = ¬ SameText c.folder_name v
  LeafHolds Node.account_is v c = parse_int v ≡ some c.account_id
  LeafHolds Node.no_type v c = ⊥
  LeafHolds (Node.other_type s) v c = ⊥

  mutual
    pub data Holds (c : Candidate) : RuleNode → Type 0 where
      by_leaf :
          {children : RuleNodes} {t : ConditionType} {v : String}
          → LeafHolds t v c
          → Holds c (node no_op children t v)
      by_all :
          {children : RuleNodes} {t : ConditionType} {v : String}
          → AllHold c children
          → Holds c (node op_and children t v)
      by_some :
          {children : RuleNodes} {t : ConditionType} {v : String}
          → SomeHolds c children
          → Holds c (node op_or children t v)

    pub data AllHold (c : Candidate) : RuleNodes → Type 0 where
      none_left : AllHold c nil
      one_more :
          {child : RuleNode} {children : RuleNodes}
          → Holds c child
          → AllHold c children
          → AllHold c (cons child children)

    pub data SomeHolds (c : Candidate) : RuleNodes → Type 0 where
      this :
          {child : RuleNode} {children : RuleNodes}
          → Holds c child
          → SomeHolds c (cons child children)
      later :
          {child : RuleNode} {children : RuleNodes}
          → SomeHolds c children
          → SomeHolds c (cons child children)

  abbrev pub LeafRefuted : ConditionType → String → Candidate → Type 0
  LeafRefuted Node.from_contains v c = ParsesTo (lib.compile v) (λ re. re c.from ≡ false)
  LeafRefuted Node.from_domain v c = ¬ HasDomain v c.from_addr
  LeafRefuted Node.from_exact v c = ¬ SameText c.from_addr v
  LeafRefuted Node.to_contains v c = ParsesTo (lib.compile v) (λ re. All (λ s. re s ≡ false) c.to)
  LeafRefuted Node.to_domain v c = All (λ a. ¬ HasDomain v a) c.to_addrs
  LeafRefuted Node.subject_contains v c = ParsesTo (lib.compile v) (λ re. re c.subject ≡ false)
  LeafRefuted Node.has_attachments v c = parse_bool v ≡ some (not c.attached)
  LeafRefuted Node.attachment_type v c = All (λ mt. ¬ SameText mt v) c.attachment_types
  LeafRefuted Node.size_greater_than v c = ParsesTo (parse_int v) (λ n. ¬ (n <ℤ c.size))
  LeafRefuted Node.size_less_than v c = ParsesTo (parse_int v) (λ n. ¬ (c.size <ℤ n))
  LeafRefuted Node.date_after v c = ParsesTo (lib.parse_time v) (λ d. ¬ (d <ℤ c.date))
  LeafRefuted Node.date_before v c = ParsesTo (lib.parse_time v) (λ d. ¬ (c.date <ℤ d))
  LeafRefuted Node.folder_is v c = ¬ SameText c.folder_name v
  LeafRefuted Node.folder_is_not v c = SameText c.folder_name v
  LeafRefuted Node.account_is v c = ParsesTo (parse_int v) (λ n. c.account_id ≢ n)
  LeafRefuted Node.no_type v c = ⊥
  LeafRefuted (Node.other_type s) v c = ⊥

  mutual
    pub data Refuted (c : Candidate) : RuleNode → Type 0 where
      leaf_fails :
          {children : RuleNodes} {t : ConditionType} {v : String}
          → LeafRefuted t v c
          → Refuted c (node no_op children t v)
      some_fails :
          {children : RuleNodes} {t : ConditionType} {v : String}
          → SomeRefuted c children
          → Refuted c (node op_and children t v)
      all_fail :
          {children : RuleNodes} {t : ConditionType} {v : String}
          → AllRefuted c children
          → Refuted c (node op_or children t v)

    pub data AllRefuted (c : Candidate) : RuleNodes → Type 0 where
      none_left : AllRefuted c nil
      one_more :
          {child : RuleNode} {children : RuleNodes}
          → Refuted c child
          → AllRefuted c children
          → AllRefuted c (cons child children)

    pub data SomeRefuted (c : Candidate) : RuleNodes → Type 0 where
      this :
          {child : RuleNode} {children : RuleNodes}
          → Refuted c child
          → SomeRefuted c (cons child children)
      later :
          {child : RuleNode} {children : RuleNodes}
          → SomeRefuted c children
          → SomeRefuted c (cons child children)
