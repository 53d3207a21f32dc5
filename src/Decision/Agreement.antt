-- ===== src/Decision/Agreement.antt =====
-- How the alert, the decision and the error counter of one transaction agree
-- (pipelines/scoring/job_extension.py).
use fraudstream.Prelude.{ℕ, String, ◌≡◌, List, [], Option, none, some, arith, if◌then◌else◌}
use fraudstream.Prelude.Int.{ℤ}
use fraudstream.Value.{PyError, Record}
use fraudstream.Rules.Model.{RuleDefinition}
use fraudstream.Rules.Outcome.{first_error}
use fraudstream.Rules.Outcome.Refines.{dispatch-eq-specified}
use fraudstream.Decision.{
  allow, flag, block, FraudAlert, FraudDecision, Evaluated, score_of, is_severe, evaluate,
  default_decision,
}

-- The alert is there for every decision but ALLOW, names the same transaction and the same rules,
-- and its severity tells FLAG from BLOCK.
abbrev pub AlertAgrees : FraudDecision → Option FraudAlert → Type 0
AlertAgrees d none = (d.decision ≡ allow) × (d.rule_triggers ≡ [])
AlertAgrees d (some a) =
    (d.decision ≡ (if is_severe a.severity then block else flag))
    × (a.transaction_id ≡ d.transaction_id)
    × (a.matched_rule_names ≡ d.rule_triggers)
    × (a.evaluation_timestamp ≡ d.decision_time_ms)

abbrev pub IsConsistent : Evaluated → Type 0
IsConsistent e =
    AlertAgrees e.decision e.alert × (e.decision.fraud_score ≡ score_of e.decision.decision)

module _ (decimal_text : String → Option ℤ) (rules : List RuleDefinition) (now : ℕ)
    (txn : Record) where
  -- The alert agrees with the decision, and the score is the one of the decision: 0.0 for ALLOW,
  -- 0.3 for FLAG, 0.8 for BLOCK.
  pub evaluate-IsConsistent : IsConsistent (evaluate decimal_text rules now txn)
  unfolding evaluate
  evaluate-IsConsistent = ground arith

  -- If an enabled rule raises, a shadow rule included, the transaction is allowed with the default
  -- record and no alert, whatever the other rules found, and one error is counted.
  pub evaluate_raising :
      {e : PyError}
      → first_error decimal_text txn rules ≡ some e
      → evaluate decimal_text rules now txn
        ≡ record { alert = none; decision = default_decision txn; errors = 1 }
  unfolding evaluate
  evaluate_raising h = ground (arith, dispatch-eq-specified decimal_text rules now txn)
