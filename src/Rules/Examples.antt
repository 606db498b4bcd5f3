-- ===== src/Rules/Examples.antt =====
-- Runs of the rule engine on small rules, with the theorems applied to them.
use marchi.Prelude.{
  ◌≡◌, ◌≢◌, refl, ◌↔◌, ◌⊎◌, inl, Bool, true, false, String, ℕ, ◌+◌, none, some, List, [], ◌∷◌, All,
  Some, keep, length, str_eq, eq_iff, arith,
}
use marchi.Prelude.Int.{pos}
use marchi.Rules.Node.{
  RuleNode, node, nil, cons, no_op, op_and, no_type, archive, skip, other_action, Rule, Candidate,
  subject_contains, from_domain,
}
use marchi.Rules.Parse.{GoLib, cut_at, equal_fold}
use marchi.Rules.Validate.{
  validate, validate_depth, validate_children, validate_leaf_value, max_depth,
}
use marchi.Rules.Evaluate.{evaluate, evaluate_and, evaluate_or, evaluate_leaf, first_match, any}
use marchi.Rules.Table.{Table, update, list, list_active, order, insert, has_id}
use marchi.Rules.Yaml.{parse_yaml, parsed, load_yaml_file, contents, sync_yaml, sync_rules, by_name}
use marchi.Rules.WellFormed.{WellFormed, validate_iff}
use marchi.Rules.Meaning.{Holds, Refuted}
use marchi.Rules.Answers.{evaluate_iff}
use marchi.Rules.Refusals.{evaluate-refutes}
use marchi.Rules.Chosen.{Passes}
use marchi.Rules.Keys.{IsTable}
use marchi.Rules.Priority.{IsActiveRow, IsBest, first_match-list_active}
use marchi.Rules.Writes.{IsRow, Carries}
use marchi.Rules.YamlSync.{sync_yaml-keeps, sync_yaml-applies, length-sync_yaml, is_new}
use marchi.Rules.YamlParse.{IsAcceptable, parse_yaml_iff, load_yaml_file-refuses}

-- A library whose regular expressions match themselves only.
abbrev go_lib : GoLib
go_lib = record { compile = λ p. some (λ s. str_eq p s); parse_time = λ s. none; fold = λ n. n }

abbrev spam_tree : RuleNode
spam_tree =
    node op_and
      (cons (node no_op nil from_domain "spam.com")
        (cons (node no_op nil subject_contains "offer") nil))
      no_type ""

abbrev letter : Candidate
letter = record {
  from = "A <a@spam.com>";
  from_addr = "a@spam.com";
  to = [];
  to_addrs = [];
  cc = [];
  cc_addrs = [];
  subject = "hello";
  attached = false;
  attachment_types = [];
  size = pos 120;
  date = pos 0;
  folder_name = "INBOX";
  account_id = pos 1;
}

abbrev spam_rule : Rule
spam_rule = record {
  id = 1;
  name = "spam";
  priority = pos 5;
  conditions = spam_tree;
  action = skip;
  is_active = true;
  match_count = 0;
}

abbrev hello_rule : Rule
hello_rule = record spam_rule {
  id = 2;
  name = "hello";
  priority = pos 3;
  conditions = node no_op nil subject_contains "hello";
  action = archive;
}

abbrev two_rules : Table
two_rules = record { rows = spam_rule ∷ hello_rule ∷ []; next_id = 3 }

abbrev no_failure : ℕ → Bool
no_failure k = false

validate_iff_example : (validate go_lib spam_tree ≡ none) ↔ WellFormed go_lib max_depth spam_tree
validate_iff_example = validate_iff go_lib spam_tree

evaluate_iff_example : (evaluate go_lib spam_tree letter ≡ true) ↔ Holds go_lib letter spam_tree
evaluate_iff_example = evaluate_iff go_lib spam_tree letter

spam_tree_validates : validate go_lib spam_tree ≡ none
unfolding validate validate_depth validate_children validate_leaf_value
spam_tree_validates = refl

letter_passes : evaluate go_lib spam_tree letter ≡ false
unfolding evaluate evaluate_and evaluate_or evaluate_leaf any cut_at equal_fold
letter_passes = refl

evaluate-refutes_example : Refuted go_lib letter spam_tree
evaluate-refutes_example =
    evaluate-refutes go_lib spam_tree letter spam_tree_validates letter_passes

first_match-list_active_example :
    ((first_match go_lib (list_active two_rules) letter ≡ none)
      × All (λ x. x.is_active ≡ true → Passes go_lib letter x) two_rules.rows)
    ⊎ ((r : Rule) × (first_match go_lib (list_active two_rules) letter ≡ some r)
        × IsActiveRow two_rules r
        × (evaluate go_lib r.conditions letter ≡ true)
        × IsBest go_lib letter two_rules r)
first_match-list_active_example = first_match-list_active go_lib two_rules letter

two_rules_keyed : IsTable two_rules
two_rules_keyed = (
  (omega arith, (λ e. refl, (λ e. absurd (omega arith), tt))),
  ((omega arith, (λ e. absurd (omega arith), (λ e. refl, tt))), tt),
)

-- A file that changes the rule "hello" and adds a rule "news".
abbrev file : List Rule
file = record hello_rule { priority = pos 9 } ∷ record hello_rule { name = "news" } ∷ []

differ : {s t : String} → str_eq s t ≡ false → s ≢ t
differ h e = cc ((eq_iff _ _).1 e)

file_settles : (sync_yaml no_failure true file two_rules).0 ≡ none
unfolding sync_yaml sync_rules by_name list order insert update has_id
file_settles = refl

sync_yaml-keeps_example : IsRow spam_rule (sync_yaml no_failure true file two_rules).1.rows
sync_yaml-keeps_example =
    sync_yaml-keeps no_failure true file two_rules spam_rule two_rules_keyed (inl refl)
      (differ refl, (differ refl, tt))

sync_yaml-applies_example :
    All (λ r. Some (Carries r) (sync_yaml no_failure true file two_rules).1.rows) file
sync_yaml-applies_example =
    sync_yaml-applies no_failure true file two_rules two_rules_keyed ((λ e. cc, tt), (tt, tt))
      file_settles

length-sync_yaml_example :
    length (sync_yaml no_failure true file two_rules).1.rows
    ≡ length two_rules.rows + length (keep (is_new two_rules.rows) file)
length-sync_yaml_example = length-sync_yaml no_failure true file two_rules file_settles

parse_yaml_iff_example :
    (parse_yaml go_lib (some file) ≡ parsed file)
    ↔ ((some file ≡ some file) × All (IsAcceptable go_lib) file)
parse_yaml_iff_example = parse_yaml_iff go_lib (some file) file

abbrev bad_file : List Rule
bad_file = hello_rule ∷ record hello_rule { action = other_action "destroy" } ∷ []

load_yaml_file-refuses_example :
    let r = load_yaml_file go_lib no_failure true (contents (some bad_file)) two_rules in
    (r.loaded ≡ false) × (r.error ≢ none) × (r.table ≡ two_rules)
load_yaml_file-refuses_example =
    load_yaml_file-refuses go_lib no_failure true bad_file two_rules (λ h. h.1.0.1)
