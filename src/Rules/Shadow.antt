-- ===== src/Rules/Shadow.antt =====
-- pipelines/scoring/rules/evaluator.py: ShadowRuleEvaluator.
pub mod Refines
use fraudstream.Prelude.{
  ℕ, String, Bool, true, false, ◌&&◌, ◌||◌, List, [], ◌∷◌, ◌++◌, Option, if◌then◌else◌,
}
use fraudstream.Prelude.Int.{ℤ}
use fraudstream.Prelude.Results.{Result, ok, err}
use fraudstream.Prelude.Equality.{◌==◌, string_eq}
use fraudstream.Value.{PyError, Record}
use fraudstream.Rules.Model.{family_value, is_shadow, RuleDefinition}
use fraudstream.Rules.Metrics.{Increment, evaluation, shadow_trigger, shadow_fp}
use fraudstream.Rules.Evaluator.{
  EvaluationResult, Scan, start, count_up, highest, determine, is_clean, evaluate_rule,
}

-- [r for r in rules if r.enabled and r.mode == RuleMode.shadow]
unfoldable pub shadow_rules : List RuleDefinition → List RuleDefinition
shadow_rules [] = []
shadow_rules (r ∷ rules) =
    let rest = shadow_rules rules in if r.enabled && is_shadow r.mode then r ∷ rest else rest

unfoldable pub record_shadow_match : RuleDefinition → Scan → Scan
record_shadow_match rule s = count_up (shadow_trigger rule.rule_id) (record s {
  shadow_matched = s.shadow_matched ++ rule.rule_id ∷ [];
  triggered_severities = s.triggered_severities ++ rule.severity ∷ [];
})

-- rule_id in matched
unfoldable pub member : String → List String → Bool
member a [] = false
member a (x ∷ xs) = x == a || member a xs

-- The counters of the rules that did not match.
unfoldable pub missed_fps : List String → List RuleDefinition → List Increment
unfolding member
missed_fps matched [] = []
missed_fps matched (r ∷ rules) =
    let rest = missed_fps matched rules in
    if member r.rule_id matched then rest else shadow_fp r.rule_id ∷ rest

unfoldable pub summarise_shadow : ℕ → Scan → EvaluationResult
unfolding highest
summarise_shadow now s = record {
  determination = determine s.shadow_matched;
  matched_rules = s.shadow_matched;
  highest_severity = highest s.triggered_severities;
  evaluation_timestamp = now;
  missing_fields = [];
}

finish_shadow :
    List RuleDefinition
    → ℕ
    → Result PyError (Unit {0}) × Scan
    → Result PyError EvaluationResult × List Increment
unfolding summarise_shadow missed_fps
finish_shadow rules now (err e, s) = (err e, s.increments)
finish_shadow rules now (ok _, s) = (
  ok (summarise_shadow now s),
  s.increments
      ++ (if is_clean (determine s.shadow_matched) then missed_fps s.shadow_matched rules else []),
)

module _ (decimal_text : String → Option ℤ) where
  unfoldable pub scan_shadow :
      Record → List RuleDefinition → Scan → Result PyError (Unit {0}) × Scan
  unfolding record_shadow_match
  scan_shadow txn [] s = (ok tt, s)
  scan_shadow txn (rule ∷ rules) s =
      let s' = count_up (evaluation rule.rule_id (family_value rule.family)) s in
      elim (evaluate_rule decimal_text txn rule) [
        | err e ↦ (err e, s')
        | ok true ↦ scan_shadow txn rules (record_shadow_match rule s')
        | ok false ↦ scan_shadow txn rules s'
      ]

  -- ShadowRuleEvaluator(rules).dispatch(txn) at the clock's value `now`
  unfoldable pub dispatch_shadow :
      List RuleDefinition → ℕ → Record → Result PyError EvaluationResult × List Increment
  unfolding scan_shadow finish_shadow
  dispatch_shadow rules now txn =
      let mine = shadow_rules rules in finish_shadow mine now (scan_shadow txn mine start)
