-- ===== src/Alerts/ShadowDecision.antt =====
-- pipelines/scoring/sinks/shadow_decisions_kafka.py: the record that compares a decision with what the
-- shadow rules found, and its sending. A score is a number of hundredths. Avro and the producer are
-- parameters.
pub mod Mismatch
use fraudstream.Prelude.{
  ℕ, ◌+◌, String, Bool, true, false, not, List, [], ◌∷◌, ◌++◌, Option, none, some, if◌then◌else◌,
}
use fraudstream.Prelude.Int.{ℤ, sub_ℕ}
use fraudstream.Prelude.Equality.{◌==◌, string_eq}
use fraudstream.Prelude.Results.{Result, ok, err}
use fraudstream.Value.{Value, str}
use fraudstream.Rules.Evaluator.{Determination, clean, suspicious, is_clean, EvaluationResult}
use fraudstream.Decision.{Decision, allow, flag, block, FraudDecision}

pub record ShadowDecision : Type 0 where
  pub transaction_id : Value
  pub account_id : String
  pub production_decision : Decision
  pub production_fraud_score : ℕ
  pub production_rule_triggers : List String
  pub shadow_determination : Determination
  pub shadow_fraud_score : ℕ
  pub shadow_rule_triggers : List String
  pub model_version : String
  pub rule_set_version : String
  pub shadow_rule_set_version : String
  pub decision_time_ms : ℕ
  pub score_delta : ℤ
  pub decision_mismatch : Bool
  pub schema_version : String

-- severity_scores.get(severity, 0.65)
unfoldable pub severity_score : String → ℕ
severity_score s =
    if s == "low"
    then 50
    else if s == "medium"
    then 65
    else if s == "high"
    then 80
    else if s == "critical"
    then 95
    else 65

-- shadow_result.highest_severity or "medium"
abbrev pub severity_or_medium : Option String → String
severity_or_medium none = "medium"
severity_or_medium (some s) = if s == "" then "medium" else s

-- _estimate_shadow_score
unfoldable pub estimate_shadow_score : EvaluationResult → ℕ
unfolding severity_score
estimate_shadow_score r =
    if is_clean r.determination then 10 else severity_score (severity_or_medium r.highest_severity)

-- "clean" if production_decision == "ALLOW" else "suspicious"
abbrev pub as_determination : Decision → Determination
as_determination allow = clean
as_determination flag = suspicious
as_determination block = suspicious

-- a != b
abbrev pub differ : Determination → Determination → Bool
differ clean d = not (is_clean d)
differ suspicious d = is_clean d

-- _build_record
unfoldable pub build_record :
    FraudDecision → EvaluationResult → String → String → String → ShadowDecision
unfolding estimate_shadow_score
build_record d r account_id rule_set_version shadow_rule_set_version = record {
  transaction_id = d.transaction_id;
  account_id = account_id;
  production_decision = d.decision;
  production_fraud_score = d.fraud_score;
  production_rule_triggers = d.rule_triggers;
  shadow_determination = r.determination;
  shadow_fraud_score = estimate_shadow_score r;
  shadow_rule_triggers = r.matched_rules;
  model_version = d.model_version;
  rule_set_version = rule_set_version;
  shadow_rule_set_version = shadow_rule_set_version;
  decision_time_ms = d.decision_time_ms;
  score_delta = sub_ℕ (estimate_shadow_score r) d.fraud_score;
  decision_mismatch = differ (as_determination d.decision) r.determination;
  schema_version = "1";
}
