-- ===== src/Rules/Validate.antt =====
-- `Validate`, `validateDepth` and `validateLeafValue` of internal/rules/rules.go. An error is
-- an `Option`: `none` is Go's nil.
use marchi.Prelude.{
  ℕ, ◌+◌, String, Bool, true, false, Option, none, some, ltb, if◌then◌else◌, str_eq,
}
use marchi.Rules.Node.{
  LogicalOp, no_op, op_and, op_or, ConditionType, no_type, RuleNode, node, RuleNodes, nil, cons,
}
use marchi.Rules.Node
use marchi.Rules.Parse.{GoLib, parse_bool, parse_int}

pub data RuleError : Type 0 where
  not_one_of_op_and_type unknown_op no_children too_deep : RuleError
  invalid_regex empty_value invalid_bool invalid_byte_count invalid_date : RuleError
  invalid_account_id unknown_type : RuleError

abbrev pub max_depth : ℕ
max_depth = 3

abbrev pub is_group : LogicalOp → Bool
is_group no_op = false
is_group _ = true

abbrev pub is_leaf : ConditionType → Bool
is_leaf no_type = false
is_leaf _ = true

abbrev pub is_known : LogicalOp → Bool
is_known op_and = true
is_known op_or = true
is_known _ = false

abbrev pub is_empty : RuleNodes → Bool
is_empty nil = true
is_empty (cons _ _) = false

abbrev pub same : Bool → Bool → Bool
same true b = b
same false true = false
same false false = true

-- `if err != nil { return e }`
abbrev pub or_error {ℓ} : {A : Type ℓ} → Option A → RuleError → Option RuleError
or_error none e = some e
or_error (some _) e = none

-- The first error, as a loop that returns at once finds it.
abbrev pub first_error {ℓ} : {E : Type ℓ} → Option E → Option E → Option E
first_error (some e) rest = some e
first_error none rest = rest

abbrev pub not_empty : String → Option RuleError
not_empty value = if str_eq value "" then some empty_value else none

module _ (lib : GoLib) where
  unfoldable pub validate_leaf_value : ConditionType → String → Option RuleError
  validate_leaf_value Node.from_contains value = or_error (lib.compile value) invalid_regex
  validate_leaf_value Node.to_contains value = or_error (lib.compile value) invalid_regex
  validate_leaf_value Node.subject_contains value = or_error (lib.compile value) invalid_regex
  validate_leaf_value Node.from_domain value = not_empty value
  validate_leaf_value Node.from_exact value = not_empty value
  validate_leaf_value Node.to_domain value = not_empty value
  validate_leaf_value Node.attachment_type value = not_empty value
  validate_leaf_value Node.folder_is value = not_empty value
  validate_leaf_value Node.folder_is_not value = not_empty value
  validate_leaf_value Node.has_attachments value = or_error (parse_bool value) invalid_bool
  validate_leaf_value Node.size_greater_than value = or_error (parse_int value) invalid_byte_count
  validate_leaf_value Node.size_less_than value = or_error (parse_int value) invalid_byte_count
  validate_leaf_value Node.date_after value = or_error (lib.parse_time value) invalid_date
  validate_leaf_value Node.date_before value = or_error (lib.parse_time value) invalid_date
  validate_leaf_value Node.account_is value = or_error (parse_int value) invalid_account_id
  validate_leaf_value _ value = some unknown_type

  unfoldable mutual
    pub validate_depth : RuleNode → ℕ → Option RuleError
    validate_depth (node op children type value) depth =
        let in_children = validate_children children (depth + 1) in
        if same (is_group op) (is_leaf type)
        then some not_one_of_op_and_type
        else if is_group op
        then (if is_known op
            then (if is_empty children
                then some no_children
                else if ltb max_depth depth
                then some too_deep
                else in_children)
            else some unknown_op)
        else validate_leaf_value type value

    pub validate_children : RuleNodes → ℕ → Option RuleError
    validate_children nil depth = none
    validate_children (cons child children) depth =
        first_error (validate_depth child depth) (validate_children children depth)

  unfoldable pub validate : RuleNode → Option RuleError
  validate n = validate_depth n 1
