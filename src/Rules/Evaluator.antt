-- ===== src/Rules/Evaluator.antt =====
-- pipelines/scoring/rules/evaluator.py: RuleEvaluator and ShadowRuleEvaluator. Trace spans and log
-- lines are left out; the counters that were incremented before an exception stay incremented, so
-- they come back beside it.
use fraudstream.Prelude.{
  ℕ, String, Bool, true, false, List, [], ◌∷◌, ◌++◌, map, Option, none, some, if◌then◌else◌,
}
use fraudstream.Prelude.Int.{ℤ}
use fraudstream.Prelude.Results.{Result, ok, err}
use fraudstream.Value.{PyError, Record}
use fraudstream.Rules.Model.{
  RuleFamily, velocity, impossible_travel, new_device, family_value, is_shadow, Severity,
  severity_name, severity_gt, RuleDefinition,
}
use fraudstream.Rules.Metrics.{Increment, evaluation, flag, trigger, shadow_trigger, shadow_fp}
use fraudstream.Rules.Families.{evaluate_velocity, evaluate_impossible_travel, evaluate_new_device}
use Prim.Native.String.{◌++◌ as append}

pub data Determination : Type 0 where
  clean suspicious : Determination

-- pipelines/scoring/types.py: EvaluationResult
pub record EvaluationResult : Type 0 where
  pub determination : Determination
  pub matched_rules : List String
  pub highest_severity : Option String
  pub evaluation_timestamp : ℕ
  pub missing_fields : List String

-- The local variables of `dispatch`, and the counters.
pub record Scan : Type 0 where
  pub active_matched : List String
  pub shadow_matched : List String
  pub triggered_severities : List Severity
  pub increments : List Increment

abbrev pub start : Scan
start = record {
  active_matched = [];
  shadow_matched = [];
  triggered_severities = [];
  increments = [];
}

abbrev pub count_up : Increment → Scan → Scan
count_up i s = record s { increments = s.increments ++ i ∷ [] }

-- [r for r in rules if r.enabled]
unfoldable pub enabled_rules : List RuleDefinition → List RuleDefinition
enabled_rules [] = []
enabled_rules (r ∷ rules) = let rest = enabled_rules rules in if r.enabled then r ∷ rest else rest

-- max(severities): the first of the greatest
unfoldable pub max_severity : Severity → List Severity → Severity
max_severity best [] = best
max_severity best (s ∷ rest) = max_severity (if severity_gt s best then s else best) rest

-- max(severities).name if severities else None
unfoldable pub highest : List Severity → Option String
unfolding max_severity
highest [] = none
highest (s ∷ rest) = some (severity_name (max_severity s rest))

-- f"{r}:shadow"
abbrev pub shadow_label : String → String
shadow_label r = append r ":shadow"

abbrev pub determine : List String → Determination
determine [] = clean
determine (_ ∷ _) = suspicious

abbrev pub is_clean : Determination → Bool
is_clean clean = true
is_clean suspicious = false

-- The body of the loop where the rule matched.
unfoldable pub record_match : RuleDefinition → Scan → Scan
record_match rule s =
    if is_shadow rule.mode
    then count_up (shadow_trigger rule.rule_id)
        (record s { shadow_matched = s.shadow_matched ++ rule.rule_id ∷ [] })
    else count_up (trigger rule.rule_id) (
        count_up (flag rule.rule_id (family_value rule.family) (severity_name rule.severity))
          (record s {
            active_matched = s.active_matched ++ rule.rule_id ∷ [];
            triggered_severities = s.triggered_severities ++ rule.severity ∷ [];
          }))

-- for rule_id in shadow_matched: record_shadow_fp(rule_id)
abbrev pub shadow_fps : List String → List Increment
shadow_fps = map shadow_fp

module _ (decimal_text : String → Option ℤ) where
  -- _FAMILY_DISPATCH
  unfoldable pub family_dispatch : RuleFamily → Record → Record → Result PyError Bool
  family_dispatch velocity = evaluate_velocity decimal_text
  family_dispatch impossible_travel = evaluate_impossible_travel
  family_dispatch new_device = evaluate_new_device decimal_text

  -- evaluate_fn(txn, rule.conditions)
  unfoldable pub evaluate_rule : Record → RuleDefinition → Result PyError Bool
  evaluate_rule txn rule = family_dispatch rule.family txn rule.conditions

  -- The loop of RuleEvaluator.dispatch. Every family has an entry in the table.
  unfoldable pub scan_rules : Record → List RuleDefinition → Scan → Result PyError (Unit {0}) × Scan
  unfolding record_match
  scan_rules txn [] s = (ok tt, s)
  scan_rules txn (rule ∷ rules) s =
      let s' = count_up (evaluation rule.rule_id (family_value rule.family)) s in
      elim (evaluate_rule txn rule) [
        | err e ↦ (err e, s')
        | ok true ↦ scan_rules txn rules (record_match rule s')
        | ok false ↦ scan_rules txn rules s'
      ]

-- What `dispatch` computes once the loop is over.
unfoldable pub summarise : ℕ → Scan → EvaluationResult
unfolding highest
summarise now s = record {
  determination = determine s.active_matched;
  matched_rules = s.active_matched ++ map shadow_label s.shadow_matched;
  highest_severity = highest s.triggered_severities;
  evaluation_timestamp = now;
  missing_fields = [];
}

finish : ℕ → Result PyError (Unit {0}) × Scan → Result PyError EvaluationResult × List Increment
unfolding summarise
finish now (err e, s) = (err e, s.increments)
finish now (ok _, s) = (
  ok (summarise now s),
  s.increments
      ++ (if is_clean (determine s.active_matched) then shadow_fps s.shadow_matched else []),
)

module _ (decimal_text : String → Option ℤ) where
  -- RuleEvaluator(rules).dispatch(txn) at the clock's value `now`
  unfoldable pub dispatch :
      List RuleDefinition → ℕ → Record → Result PyError EvaluationResult × List Increment
  unfolding scan_rules finish
  dispatch rules now txn = finish now (scan_rules decimal_text txn (enabled_rules rules) start)
