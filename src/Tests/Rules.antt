-- ===== src/Tests/Rules.antt =====
-- The rule engine and the decision, with rules of rules/rules.yaml and a shadow rule.
use fraudstream.Prelude.{◌≡◌, refl, String, true, false, List, [], ◌∷◌, Option, none, some}
use fraudstream.Prelude.Int.{ℤ, pos}
use fraudstream.Prelude.Results.{ok}
use fraudstream.Value.{bool, int, num, str, type_error, Record, get_value, has, item, gt}
use fraudstream.Rules.Families.{evaluate_velocity, evaluate_new_device, decimal}
use fraudstream.Rules.Model.{
  RuleDefinition, velocity, new_device, active, shadow, low, medium, high, critical,
}
use fraudstream.Rules.Evaluator.{
  suspicious, dispatch, evaluate_rule, family_dispatch, enabled_rules,
}
use fraudstream.Rules.Outcome.{first_error, specified}
use fraudstream.Rules.Outcome.Refines.{dispatch-eq-specified}
use fraudstream.Rules.Shadow.{dispatch_shadow}
use fraudstream.Rules.Shadow.Refines.{specified_shadow, dispatch_shadow-eq-specified}
use fraudstream.Rules.Bridge.{
  RawRule, no_mapping, mapping, is_shadow_name, build_rule_family_map, flags_of, evaluations_of,
}
use fraudstream.Rules.Bridge.Flags.{flags_expected, flags_of-build_alert}
use fraudstream.Rules.Metrics.{evaluation, flag}
use fraudstream.Rules.Evaluator.{EvaluationResult}
use fraudstream.Decision.{build_alert, allow, block, evaluate}
use fraudstream.Decision.Outcome.{specified_decision, evaluate-decision}
use fraudstream.Decision.Agreement.{IsConsistent, evaluate-IsConsistent}
use fraudstream.Decision.Shadow.{production_rules, evaluate-production_rules}

abbrev pub no_text : String → Option ℤ
no_text s = none

abbrev pub burst : RuleDefinition
burst = record {
  rule_id = "VEL-001";
  name = "HIGH_FREQUENCY_1M";
  family = velocity;
  conditions = ("field", str "vel_count_1m") ∷ ("count", int (pos 5)) ∷ [];
  severity = high;
  enabled = true;
  mode = active;
}

abbrev large_on_new_device : RuleDefinition
large_on_new_device = record {
  rule_id = "ND-001";
  name = "NEW_DEVICE_HIGH_AMOUNT";
  family = new_device;
  conditions = ("amount", int (pos 500)) ∷ [];
  severity = medium;
  enabled = true;
  mode = active;
}

abbrev pub burst_5m : RuleDefinition
burst_5m = record {
  rule_id = "SHADOW-001";
  name = "BURST_5M";
  family = velocity;
  conditions = ("field", str "vel_count_5m") ∷ ("count", int (pos 3)) ∷ [];
  severity = critical;
  enabled = true;
  mode = shadow;
}

-- Its threshold is a text, so the comparison raises.
abbrev broken_shadow : RuleDefinition
broken_shadow = record {
  rule_id = "SHADOW-002";
  name = "BROKEN";
  family = velocity;
  conditions = ("field", str "vel_count_5m") ∷ ("count", str "3") ∷ [];
  severity = low;
  enabled = true;
  mode = shadow;
}

abbrev rules : List RuleDefinition
rules = burst_5m ∷ burst ∷ large_on_new_device ∷ []

abbrev pub txn : Record
txn =
    ("transaction_id", str "t-1")
    ∷ ("account_id", str "a-1")
    ∷ ("vel_count_1m", int (pos 6))
    ∷ ("vel_count_5m", int (pos 6))
    ∷ ("txn_amount", num (pos 1200000))
    ∷ ("device_is_new", bool true)
    ∷ []

dispatch_run :
    (dispatch no_text rules 7 txn).0
    ≡ ok (record {
      determination = suspicious;
      matched_rules = "VEL-001" ∷ "SHADOW-001:shadow" ∷ [];
      highest_severity = some "high";
      evaluation_timestamp = 7;
      missing_fields = [];
    })
unfolding dispatch evaluate_rule family_dispatch evaluate_velocity evaluate_new_device get_value has
    item gt decimal enabled_rules
dispatch_run = refl

decision_run :
    let e = evaluate no_text rules 7 txn in
    (e.decision.decision ≡ block) × (e.decision.fraud_score ≡ 80) × (e.errors ≡ 0)
unfolding evaluate dispatch evaluate_rule family_dispatch evaluate_velocity evaluate_new_device
    get_value has item gt decimal enabled_rules
decision_run = (refl, refl, refl)

-- A shadow rule that raises hides what the active rules found.
broken_shadow_run : (evaluate no_text (broken_shadow ∷ rules) 7 txn).decision.decision ≡ allow
unfolding evaluate dispatch evaluate_rule family_dispatch evaluate_velocity evaluate_new_device
    get_value has item gt decimal enabled_rules
broken_shadow_run = refl

no_error : first_error no_text txn rules ≡ none
unfolding first_error evaluate_rule family_dispatch evaluate_velocity evaluate_new_device get_value
    has item gt decimal
no_error = refl

shadow_error : first_error no_text txn (broken_shadow ∷ rules) ≡ some type_error
unfolding first_error evaluate_rule family_dispatch evaluate_velocity evaluate_new_device get_value
    has item gt decimal
shadow_error = refl

dispatch-eq-specified_example : (dispatch no_text rules 7 txn).0 ≡ specified no_text rules 7 txn
dispatch-eq-specified_example = dispatch-eq-specified no_text rules 7 txn

evaluate-decision_example :
    (evaluate no_text rules 7 txn).decision.decision ≡ specified_decision no_text txn rules
evaluate-decision_example = evaluate-decision no_text txn rules 7

evaluate-IsConsistent_example : IsConsistent (evaluate no_text rules 7 txn)
evaluate-IsConsistent_example = evaluate-IsConsistent no_text rules 7 txn

evaluate-production_rules_example :
    (evaluate no_text rules 7 txn).decision.decision
    ≡ (evaluate no_text (production_rules rules) 7 txn).decision.decision
evaluate-production_rules_example = evaluate-production_rules no_text txn rules 7 no_error

dispatch_shadow-eq-specified_example :
    (dispatch_shadow no_text rules 7 txn).0 ≡ specified_shadow no_text rules 7 txn
dispatch_shadow-eq-specified_example = dispatch_shadow-eq-specified no_text rules 7 txn

abbrev rules_file : Option (List RawRule)
rules_file = some (
    mapping (some "SHADOW-001") (some "velocity") none
    ∷ mapping (some "VEL-001") (some "velocity") (some true)
    ∷ no_mapping
    ∷ mapping (some "VEL-002") (some "velocity") (some false)
    ∷ mapping (some "ND-001") (some "new_device") (some true)
    ∷ [])

-- str.lower on the names of severities, which are in lower case
abbrev lower_name : String → String
lower_name s = s

abbrev matched : EvaluationResult
matched = record {
  determination = suspicious;
  matched_rules = "VEL-001" ∷ "SHADOW-001:shadow" ∷ [];
  highest_severity = some "high";
  evaluation_timestamp = 7;
  missing_fields = [];
}

flags_of-build_alert_example :
    flags_of lower_name (build_rule_family_map rules_file) (build_alert txn matched)
    ≡ flags_expected lower_name (build_rule_family_map rules_file) "high" ("VEL-001" ∷ [])
unfolding is_shadow_name dispatch evaluate_rule family_dispatch evaluate_velocity
    evaluate_new_device get_value has item gt decimal enabled_rules
flags_of-build_alert_example =
    flags_of-build_alert no_text lower_name (build_rule_family_map rules_file) rules 7 txn matched
      refl refl

bridge_flags :
    flags_of lower_name (build_rule_family_map rules_file) (build_alert txn matched)
    ≡ flag "VEL-001" "velocity" "high" ∷ []
unfolding flags_of is_shadow_name build_rule_family_map build_alert
bridge_flags = refl

bridge_evaluations :
    evaluations_of (build_rule_family_map rules_file)
    ≡ evaluation "SHADOW-001" "velocity"
      ∷ evaluation "VEL-001" "velocity"
      ∷ evaluation "ND-001" "new_device"
      ∷ []
unfolding evaluations_of build_rule_family_map
bridge_evaluations = refl

-- A rule without a family empties the whole map.
bridge_missing_family :
    build_rule_family_map
      (some (mapping (some "VEL-001") (some "velocity") none ∷ mapping (some "X") none none ∷ []))
    ≡ []
unfolding build_rule_family_map
bridge_missing_family = refl
