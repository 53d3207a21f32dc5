-- ===== src/Rules/Outcome/Refines.antt =====
-- RuleEvaluator.dispatch computes the specified outcome (pipelines/scoring/rules/evaluator.py).
use fraudstream.Prelude.{ℕ, String, ◌≡◌, List, Option, arith}
use fraudstream.Prelude.Int.{ℤ}
use fraudstream.Value.{Record}
use fraudstream.Rules.Model.{RuleDefinition}
use fraudstream.Rules.Evaluator.{start, dispatch}
use fraudstream.Rules.Outcome.{specified}
use fraudstream.Rules.Outcome.Loop.{
  scan_rules-result, scan_rules-active_matched, scan_rules-shadow_matched,
  scan_rules-triggered_severities,
}

module _ (decimal_text : String → Option ℤ) where
  -- For every rule list, clock value and transaction, `dispatch` returns the specified outcome, or
  -- raises the exception of the first enabled rule that raises.
  pub dispatch-eq-specified :
      (rules : List RuleDefinition) (now : ℕ) (txn : Record)
      → (dispatch decimal_text rules now txn).0 ≡ specified decimal_text rules now txn
  unfolding dispatch
  dispatch-eq-specified rules now txn = ground (
    arith,
    scan_rules-result decimal_text txn rules start,
    scan_rules-active_matched decimal_text txn rules start,
    scan_rules-shadow_matched decimal_text txn rules start,
    scan_rules-triggered_severities decimal_text txn rules start,
  )
