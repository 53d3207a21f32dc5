-- ===== src/Rules/Shadow/Refines.antt =====
-- What ShadowRuleEvaluator.dispatch promises, and what it counts
-- (pipelines/scoring/rules/evaluator.py).
use mathlib.Core.List.{append-nil, append_assoc}
use fraudstream.Prelude.{ℕ, String, ◌≡◌, refl, List, [], ◌∷◌, ◌++◌, Option, none, some, arith}
use fraudstream.Prelude.Int.{ℤ}
use fraudstream.Prelude.Results.{Result, ok, err}
use fraudstream.Value.{PyError, Record}
use fraudstream.Rules.Model.{RuleDefinition, family_value}
use fraudstream.Rules.Metrics.{evaluation}
use fraudstream.Rules.Evaluator.{EvaluationResult, Scan, start, count_up, determine, highest}
use fraudstream.Rules.Outcome.{fires_shadow, first_error, select, rule_ids, severities}
use fraudstream.Rules.Outcome.Loop.{as_result}
use fraudstream.Rules.Shadow.{
  shadow_rules, record_shadow_match, scan_shadow, finish_shadow, summarise_shadow, dispatch_shadow,
}

module _ (decimal_text : String → Option ℤ) where
  abbrev pub shadow_outcome : List RuleDefinition → ℕ → Record → EvaluationResult
  shadow_outcome rules now txn =
      let quiet = select (fires_shadow decimal_text txn) rules in
      record {
        determination = determine (rule_ids quiet);
        matched_rules = rule_ids quiet;
        highest_severity = highest (severities quiet);
        evaluation_timestamp = now;
        missing_fields = [];
      }

  abbrev pub specified_shadow : List RuleDefinition → ℕ → Record → Result PyError EvaluationResult
  specified_shadow rules now txn = elim (first_error decimal_text txn (shadow_rules rules)) [
    | some e ↦ err e
    | none ↦ ok (shadow_outcome rules now txn)
  ]

  module _ (txn : Record) where
    scan_shadow-result :
        (rules : List RuleDefinition) (s : Scan)
        → (scan_shadow decimal_text txn (shadow_rules rules) s).0
          ≡ as_result (first_error decimal_text txn (shadow_rules rules))
    unfolding scan_shadow shadow_rules first_error
    scan_shadow-result [] s = refl
    scan_shadow-result (r ∷ rules) s =
        let s' = count_up (evaluation r.rule_id (family_value r.family)) s in
        ground (
          arith,
          scan_shadow-result rules s,
          scan_shadow-result rules s',
          scan_shadow-result rules (record_shadow_match r s'),
        )

    scan_shadow-matched :
        (rules : List RuleDefinition) (s : Scan)
        → first_error decimal_text txn (shadow_rules rules) ≡ none
        → let quiet = select (fires_shadow decimal_text txn) rules in
          let scan = (scan_shadow decimal_text txn (shadow_rules rules) s).1 in
          (scan.shadow_matched ≡ s.shadow_matched ++ rule_ids quiet)
          × (scan.triggered_severities ≡ s.triggered_severities ++ severities quiet)
    unfolding scan_shadow shadow_rules first_error record_shadow_match
    scan_shadow-matched [] s h = (rw append-nil refl, rw append-nil refl)
    scan_shadow-matched (r ∷ rules) s h =
        let s' = count_up (evaluation r.rule_id (family_value r.family)) s in
        let quiet = select (fires_shadow decimal_text txn) rules in
        ground (
          arith,
          scan_shadow-matched rules s,
          scan_shadow-matched rules s',
          scan_shadow-matched rules (record_shadow_match r s'),
          append_assoc s.shadow_matched (r.rule_id ∷ []) (rule_ids quiet),
          append_assoc s.triggered_severities (r.severity ∷ []) (severities quiet),
        )

  -- For every rule list, clock value and transaction, the shadow evaluator returns the outcome that
  -- the enabled shadow rules which fire determine, or raises the exception of the first enabled
  -- shadow rule that raises.
  pub dispatch_shadow-eq-specified :
      (rules : List RuleDefinition) (now : ℕ) (txn : Record)
      → (dispatch_shadow decimal_text rules now txn).0 ≡ specified_shadow rules now txn
  unfolding dispatch_shadow finish_shadow summarise_shadow
  dispatch_shadow-eq-specified rules now txn =
      ground (arith, scan_shadow-result txn rules start, scan_shadow-matched txn rules start)
