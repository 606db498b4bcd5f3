-- ===== src/Rules.antt =====
-- The rule engine: internal/domain/rule.go and internal/rules.
pub mod Node
pub mod Parse
pub mod Validate
pub mod Evaluate
pub mod WellFormed
pub mod Meaning
pub mod Answers
pub mod Refusals
pub mod Chosen
pub mod Table
pub mod Yaml
pub mod Priority
pub mod Keys
pub mod Writes
pub mod YamlSync
pub mod YamlParse
pub mod Examples
