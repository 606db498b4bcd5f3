-- ===== src/Rules/Yaml.antt =====
-- internal/rules/yaml.go: `ParseYAML` after yaml.Unmarshal, `SyncYAML` and `LoadYAMLFile`.
use marchi.Prelude.{
  ℕ, suc, String, Bool, true, false, Option, none, some, List, [], ◌∷◌, if◌then◌else◌, str_eq,
}
use marchi.Rules.Node.{Rule, RuleAction, other_action}
use marchi.Rules.Parse.{GoLib}
use marchi.Rules.Validate.{RuleError, validate}
use marchi.Rules.Table.{Table, create, update, list}

-- `ParseRuleAction`: true where it returns the action, false where it returns an error.
unfoldable pub parse_rule_action : RuleAction → Bool
parse_rule_action (other_action s) = false
parse_rule_action _ = true

pub data YamlError : Type 0 where
  unparsable : YamlError
  no_name : ℕ → YamlError
  bad_action : String → YamlError
  bad_conditions : String → RuleError → YamlError
  listing_failed : YamlError
  reading_failed : YamlError
  updating_failed creating_failed : String → YamlError

pub data Parsed : Type 0 where
  parsed : List Rule → Parsed
  refused : YamlError → Parsed

unfoldable pub check_rule : GoLib → ℕ → Rule → Option YamlError
check_rule lib i r =
    if str_eq r.name ""
    then some (no_name i)
    else if parse_rule_action r.action
    then (elim (validate lib r.conditions) [
      | none ↦ none
      | some e ↦ some (bad_conditions r.name e)
    ])
    else some (bad_action r.name)

-- The first error of the loop, from index `i` on.
unfoldable pub check_rules : GoLib → ℕ → List Rule → Option YamlError
check_rules lib i [] = none
check_rules lib i (r ∷ rules) =
    let rest = check_rules lib (suc i) rules in
    elim (check_rule lib i r) [ some e ↦ some e | none ↦ rest ]

-- `unmarshalled` is what yaml.Unmarshal makes of the file's bytes.
unfoldable pub parse_yaml : GoLib → Option (List Rule) → Parsed
parse_yaml lib none = refused unparsable
parse_yaml lib (some rules) = elim (check_rules lib 0 rules) [
  | none ↦ parsed rules
  | some e ↦ refused e
]

-- `byName`: of two rows with one name the later in the listing is kept.
unfoldable pub by_name : String → List Rule → Option Rule
by_name name [] = none
by_name name (x ∷ rows) = elim (by_name name rows) [
  | some y ↦ some y
  | none ↦ if str_eq x.name name then some x else none
]

-- `fails k` says whether SQLite refuses the k-th write; a refused write is rolled back.
module _ (fails : ℕ → Bool) where
  abbrev pub write_one : ℕ → Option Rule → Rule → Table → Option YamlError × Table
  write_one k none r t = if fails k then (some (creating_failed r.name), t) else (none, create r t)
  write_one k (some current) r t =
      if fails k
      then (some (updating_failed r.name), t)
      else (elim (update (record r { id = current.id }) t) [
        | none ↦ (some (updating_failed r.name), t)
        | some t' ↦ (none, t')
      ])

  unfoldable pub sync_rules : ℕ → List Rule → List Rule → Table → Option YamlError × Table
  sync_rules k existing [] t = (none, t)
  sync_rules k existing (r ∷ rules) t =
      let (e, t') = write_one k (by_name r.name existing) r t in
      elim e [ some e ↦ (some e, t') | none ↦ sync_rules (suc k) existing rules t' ]

  -- `listed` is false where the listing query fails.
  unfoldable pub sync_yaml : Bool → List Rule → Table → Option YamlError × Table
  sync_yaml listed rules t =
      if listed then sync_rules 0 (list t) rules t else (some listing_failed, t)

-- What os.ReadFile finds: no file, an error, or bytes with what yaml.Unmarshal makes of them.
pub data FileRead : Type 0 where
  missing unreadable : FileRead
  contents : Option (List Rule) → FileRead

-- The results are `loaded`, the error and the table.
pub record Loaded : Type 0 where
  pub loaded : Bool
  pub error : Option YamlError
  pub table : Table

abbrev after_sync : Option YamlError × Table → Loaded
after_sync (some e, t) = record { loaded = false; error = some e; table = t }
after_sync (none, t) = record { loaded = true; error = none; table = t }

unfoldable pub load_yaml_file : GoLib → (ℕ → Bool) → Bool → FileRead → Table → Loaded
load_yaml_file lib fails listed missing t = record { loaded = false; error = none; table = t }
load_yaml_file lib fails listed unreadable t = record {
  loaded = false;
  error = some reading_failed;
  table = t;
}
load_yaml_file lib fails listed (contents c) t = elim (parse_yaml lib c) [
  | refused e ↦ record { loaded = false; error = some e; table = t }
  | parsed rules ↦ after_sync (sync_yaml fails listed rules t)
]
