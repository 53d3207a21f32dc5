-- ===== src/Tests/ShadowDecision.antt =====
-- The record of a shadow decision, where a shadow rule and an active rule fire and where only the shadow
-- rule does.
use fraudstream.Prelude.{◌≡◌, refl, true, false, List, [], ◌∷◌, some}
use fraudstream.Prelude.Int.{pos}
use fraudstream.Value.{get_value, has, item, gt}
use fraudstream.Rules.Families.{evaluate_velocity}
use fraudstream.Rules.Model.{RuleDefinition}
use fraudstream.Rules.Evaluator.{
  EvaluationResult, suspicious, dispatch, evaluate_rule, family_dispatch, enabled_rules,
}
use fraudstream.Rules.Outcome.{first_error, any, fires_active, fires_shadow}
use fraudstream.Rules.Shadow.{shadow_rules, dispatch_shadow}
use fraudstream.Decision.{evaluate}
use fraudstream.Alerts.ShadowDecision.{build_record}
use fraudstream.Alerts.ShadowDecision.Mismatch.{xor, shadow_score_of, build_record-mismatch}
use fraudstream.Tests.Rules.{no_text, burst, burst_5m, txn}

abbrev quiet_only : List RuleDefinition
quiet_only = burst_5m ∷ []

abbrev quiet_result : EvaluationResult
quiet_result = record {
  determination = suspicious;
  matched_rules = "SHADOW-001" ∷ [];
  highest_severity = some "critical";
  evaluation_timestamp = 7;
  missing_fields = [];
}

build_record-mismatch_example :
    let d = build_record (evaluate no_text quiet_only 7 txn).decision quiet_result "a-1" "1" "2" in
    (d.decision_mismatch
      ≡ xor (any (fires_active no_text txn) quiet_only) (any (fires_shadow no_text txn) quiet_only))
    × (d.shadow_fraud_score ≡ shadow_score_of no_text txn quiet_only)
unfolding first_error shadow_rules dispatch_shadow evaluate_rule family_dispatch evaluate_velocity
    get_value has item gt
build_record-mismatch_example =
    build_record-mismatch no_text txn quiet_only 7 quiet_result "a-1" "1" "2" refl refl

quiet_record :
    let d = build_record (evaluate no_text quiet_only 7 txn).decision quiet_result "a-1" "1" "2" in
    (d.decision_mismatch ≡ true) × (d.score_delta ≡ pos 95)
unfolding build_record evaluate dispatch evaluate_rule family_dispatch evaluate_velocity get_value
    has item gt enabled_rules
quiet_record = (refl, refl)

both_record :
    let d =
      build_record
        (evaluate no_text (burst ∷ quiet_only) 7 txn).decision
        quiet_result
        "a-1"
        "1"
        "2" in
    (d.decision_mismatch ≡ false) × (d.score_delta ≡ pos 15)
unfolding build_record evaluate dispatch evaluate_rule family_dispatch evaluate_velocity get_value
    has item gt enabled_rules
both_record = (refl, refl)
