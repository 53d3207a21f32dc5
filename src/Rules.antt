-- ===== src/Rules.antt =====
-- The rule engine, pipelines/scoring/rules/.
pub mod Model
pub mod RuleId
pub mod Families
pub mod Metrics
pub mod Evaluator
pub mod Loader
pub mod Shadow
pub mod Bridge
pub mod Outcome
