-- ===== src/Decision.antt =====
-- pipelines/scoring/job_extension.py: the decision and the alert for one enriched transaction.
-- A score is a number of hundredths.
pub mod Outcome
pub mod Agreement
pub mod Shadow
use fraudstream.Prelude.{
  ℕ, suc, ◌+◌, String, Bool, true, false, ◌||◌, List, [], Option, none, some, if◌then◌else◌,
}
use fraudstream.Prelude.Int.{ℤ}
use fraudstream.Prelude.Results.{Result, ok, err}
use fraudstream.Prelude.Equality.{◌==◌, string_eq}
use fraudstream.Prelude.Dict.{get}
use fraudstream.Value.{Value, str, PyError, Record}
use fraudstream.Rules.Model.{RuleDefinition}
use fraudstream.Rules.Evaluator.{
  Determination, clean, suspicious, is_clean, EvaluationResult, dispatch,
}

pub data Decision : Type 0 where
  allow flag block : Decision

-- pipelines/scoring/types.py: FraudAlert
pub record FraudAlert : Type 0 where
  pub transaction_id : Value
  pub account_id : Value
  pub matched_rule_names : List String
  pub severity : String
  pub evaluation_timestamp : ℕ

-- pipelines/scoring/types.py: FraudDecision, whose shadow fields keep their default None here
pub record FraudDecision : Type 0 where
  pub transaction_id : Value
  pub decision : Decision
  pub fraud_score : ℕ
  pub rule_triggers : List String
  pub model_version : String
  pub decision_time_ms : ℕ
  pub latency_ms : ℕ
  pub schema_version : String

-- d.get(k, "")
abbrev pub get_or_empty : String → Record → Value
get_or_empty k d = elim (get k d) [ none ↦ str "" | some v ↦ v ]

-- result.highest_severity or "low"
abbrev pub severity_or_low : Option String → String
severity_or_low none = "low"
severity_or_low (some s) = if s == "" then "low" else s

abbrev pub is_severe : String → Bool
is_severe s = s == "high" || s == "critical"

abbrev pub decide : EvaluationResult → Decision
decide r =
    if is_clean r.determination
    then allow
    else if is_severe (severity_or_low r.highest_severity)
    then block
    else flag

abbrev pub score_of : Decision → ℕ
score_of allow = 0
score_of flag = 30
score_of block = 80

-- _build_fraud_decision
unfoldable pub build_fraud_decision : Record → EvaluationResult → FraudDecision
unfolding get
build_fraud_decision txn result = record {
  transaction_id = get_or_empty "transaction_id" txn;
  decision = decide result;
  fraud_score = score_of (decide result);
  rule_triggers = if is_clean result.determination then [] else result.matched_rules;
  model_version = "rule-only";
  decision_time_ms = result.evaluation_timestamp;
  latency_ms = 0;
  schema_version = "1";
}

unfoldable pub build_alert : Record → EvaluationResult → Option FraudAlert
unfolding get
build_alert txn result =
    if is_clean result.determination
    then none
    else some (record {
      transaction_id = get_or_empty "transaction_id" txn;
      account_id = get_or_empty "account_id" txn;
      matched_rule_names = result.matched_rules;
      severity = severity_or_low result.highest_severity;
      evaluation_timestamp = result.evaluation_timestamp;
    })

-- The decision where the evaluation raised.
unfoldable pub default_decision : Record → FraudDecision
unfolding get
default_decision txn = record {
  transaction_id = get_or_empty "transaction_id" txn;
  decision = allow;
  fraud_score = 0;
  rule_triggers = [];
  model_version = "rule-only";
  decision_time_ms = 0;
  latency_ms = 0;
  schema_version = "1";
}

pub record Evaluated : Type 0 where
  pub alert : Option FraudAlert
  pub decision : FraudDecision
  -- by how much evaluation_errors_total grew
  pub errors : ℕ

unfoldable pub handle_result : Record → Result PyError EvaluationResult → Evaluated
unfolding build_alert build_fraud_decision default_decision
handle_result txn (ok result) = record {
  alert = build_alert txn result;
  decision = build_fraud_decision txn result;
  errors = 0;
}
handle_result txn (err e) = record { alert = none; decision = default_decision txn; errors = 1 }

-- _evaluate
unfoldable pub evaluate : (String → Option ℤ) → List RuleDefinition → ℕ → Record → Evaluated
unfolding handle_result
evaluate decimal_text rules now txn = handle_result txn (dispatch decimal_text rules now txn).0
