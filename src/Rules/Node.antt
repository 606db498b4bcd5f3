-- ===== src/Rules/Node.antt =====
-- The condition tree, rules and candidates: internal/domain/rule.go and the `Candidate` of
-- internal/rules/rules.go. A named string type is a data type with a constructor for each
-- declared constant, one for the empty string and one for every other string.
use marchi.Prelude.{ℕ, String, Bool, List}
use marchi.Prelude.Int.{ℤ}

pub data LogicalOp : Type 0 where
  no_op op_and op_or : LogicalOp
  other_op : String → LogicalOp

pub data ConditionType : Type 0 where
  no_type : ConditionType
  from_contains from_domain from_exact : ConditionType
  to_contains to_domain : ConditionType
  subject_contains : ConditionType
  has_attachments attachment_type : ConditionType
  size_greater_than size_less_than : ConditionType
  date_after date_before : ConditionType
  folder_is folder_is_not : ConditionType
  account_is : ConditionType
  other_type : String → ConditionType

-- `RuleNode` with its fields Op, Children, Type and Value; `RuleNodes` is `[]RuleNode`.
mutual
  pub data RuleNode : Type 0 where
    node : LogicalOp → RuleNodes → ConditionType → String → RuleNode

  pub data RuleNodes : Type 0 where
    nil : RuleNodes
    cons : RuleNode → RuleNodes → RuleNodes

pub data RuleAction : Type 0 where
  archive skip archive_and_delete archive_and_mark_read : RuleAction
  other_action : String → RuleAction

-- CreatedAt and LastMatchedAt are set by the database and read by no code modelled here.
pub record Rule : Type 0 where
  pub id : ℕ
  pub name : String
  pub priority : ℤ
  pub conditions : RuleNode
  pub action : RuleAction
  pub is_active : Bool
  pub match_count : ℕ

-- What a condition tree is evaluated against. `date` counts nanoseconds from a fixed instant.
pub record Candidate : Type 0 where
  pub from : String
  pub from_addr : String
  pub to : List String
  pub to_addrs : List String
  pub cc : List String
  pub cc_addrs : List String
  pub subject : String
  pub attached : Bool
  pub attachment_types : List String
  pub size : ℤ
  pub date : ℤ
  pub folder_name : String
  pub account_id : ℤ
