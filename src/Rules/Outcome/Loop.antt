-- ===== src/Rules/Outcome/Loop.antt =====
-- The loop of RuleEvaluator.dispatch against the selections of the specification.
use mathlib.Core.List.{append-nil, append_assoc}
use fraudstream.Prelude.{String, ◌≡◌, refl, List, [], ◌∷◌, ◌++◌, Option, none, some, arith}
use fraudstream.Prelude.Int.{ℤ}
use fraudstream.Prelude.Results.{Result, ok, err}
use fraudstream.Value.{PyError, Record}
use fraudstream.Rules.Model.{RuleDefinition, family_value}
use fraudstream.Rules.Metrics.{evaluation}
use fraudstream.Rules.Evaluator.{Scan, count_up, enabled_rules, record_match, scan_rules}
use fraudstream.Rules.Outcome.{
  fires_active, fires_shadow, first_error, select, rule_ids, severities,
}

abbrev pub as_result : Option PyError → Result PyError (Unit {0})
as_result none = ok tt
as_result (some e) = err e

module _ (decimal_text : String → Option ℤ) (txn : Record) where
  -- The loop raises what the first enabled rule that raises does.
  pub scan_rules-result :
      (rules : List RuleDefinition) (s : Scan)
      → (scan_rules decimal_text txn (enabled_rules rules) s).0
        ≡ as_result (first_error decimal_text txn rules)
  unfolding scan_rules enabled_rules first_error
  scan_rules-result [] s = refl
  scan_rules-result (r ∷ rules) s =
      let s' = count_up (evaluation r.rule_id (family_value r.family)) s in
      ground (
        arith,
        scan_rules-result rules s,
        scan_rules-result rules s',
        scan_rules-result rules (record_match r s'),
      )

  -- If no rule raises, the loop appends what the selections hold, in the order of the rules.
  pub scan_rules-active_matched :
      (rules : List RuleDefinition) (s : Scan)
      → first_error decimal_text txn rules ≡ none
      → (scan_rules decimal_text txn (enabled_rules rules) s).1.active_matched
        ≡ s.active_matched ++ rule_ids (select (fires_active decimal_text txn) rules)
  unfolding scan_rules enabled_rules first_error
  scan_rules-active_matched [] s h = rw append-nil
  scan_rules-active_matched (r ∷ rules) s h =
      let s' = count_up (evaluation r.rule_id (family_value r.family)) s in
      ground (
        arith,
        scan_rules-active_matched rules s,
        scan_rules-active_matched rules s',
        scan_rules-active_matched rules (record_match r s'),
        append_assoc s.active_matched (r.rule_id ∷ [])
            (rule_ids (select (fires_active decimal_text txn) rules)),
      )

  pub scan_rules-shadow_matched :
      (rules : List RuleDefinition) (s : Scan)
      → first_error decimal_text txn rules ≡ none
      → (scan_rules decimal_text txn (enabled_rules rules) s).1.shadow_matched
        ≡ s.shadow_matched ++ rule_ids (select (fires_shadow decimal_text txn) rules)
  unfolding scan_rules enabled_rules first_error
  scan_rules-shadow_matched [] s h = rw append-nil
  scan_rules-shadow_matched (r ∷ rules) s h =
      let s' = count_up (evaluation r.rule_id (family_value r.family)) s in
      ground (
        arith,
        scan_rules-shadow_matched rules s,
        scan_rules-shadow_matched rules s',
        scan_rules-shadow_matched rules (record_match r s'),
        append_assoc s.shadow_matched (r.rule_id ∷ [])
            (rule_ids (select (fires_shadow decimal_text txn) rules)),
      )

  pub scan_rules-triggered_severities :
      (rules : List RuleDefinition) (s : Scan)
      → first_error decimal_text txn rules ≡ none
      → (scan_rules decimal_text txn (enabled_rules rules) s).1.triggered_severities
        ≡ s.triggered_severities ++ severities (select (fires_active decimal_text txn) rules)
  unfolding scan_rules enabled_rules first_error
  scan_rules-triggered_severities [] s h = rw append-nil
  scan_rules-triggered_severities (r ∷ rules) s h =
      let s' = count_up (evaluation r.rule_id (family_value r.family)) s in
      ground (
        arith,
        scan_rules-triggered_severities rules s,
        scan_rules-triggered_severities rules s',
        scan_rules-triggered_severities rules (record_match r s'),
        append_assoc s.triggered_severities (r.severity ∷ [])
            (severities (select (fires_active decimal_text txn) rules)),
      )
