-- ===== src/Rules/Outcome.antt =====
-- What RuleEvaluator.dispatch promises (pipelines/scoring/rules/evaluator.py), with no loop and no
-- accumulators: the exception of the first enabled rule that raises or, if none does, what the
-- enabled rules that fire determine.
pub mod Loop
pub mod Refines
use fraudstream.Prelude.{
  ℕ, String, Bool, true, false, not, ◌&&◌, ◌||◌, List, [], ◌∷◌, ◌++◌, map, Option, none, some, leb,
  if◌then◌else◌,
}
use fraudstream.Prelude.Int.{ℤ}
use fraudstream.Prelude.Results.{Result, ok, err}
use fraudstream.Value.{PyError, Record}
use fraudstream.Rules.Model.{is_shadow, Severity, rank, RuleDefinition}
use fraudstream.Rules.Evaluator.{EvaluationResult, determine, highest, shadow_label, evaluate_rule}

abbrev pub holds : Result PyError Bool → Bool
holds (ok b) = b
holds (err e) = false

abbrev pub raised : Result PyError Bool → Option PyError
raised (ok b) = none
raised (err e) = some e

module _ (decimal_text : String → Option ℤ) (txn : Record) where
  -- The rule is enabled and its test is true of the transaction.
  abbrev pub fires : RuleDefinition → Bool
  fires r = r.enabled && holds (evaluate_rule decimal_text txn r)

  abbrev pub fires_active : RuleDefinition → Bool
  fires_active r = fires r && not (is_shadow r.mode)

  abbrev pub fires_shadow : RuleDefinition → Bool
  fires_shadow r = fires r && is_shadow r.mode

  -- The exception of the first enabled rule that raises.
  unfoldable pub first_error : List RuleDefinition → Option PyError
  first_error [] = none
  first_error (r ∷ rules) =
      let rest = first_error rules in
      if r.enabled
      then elim (raised (evaluate_rule decimal_text txn r)) [ some e ↦ some e | none ↦ rest ]
      else rest

abbrev pub select {ℓ} : {A : Type ℓ} → (A → Bool) → List A → List A
select p [] = []
select p (x ∷ xs) = let rest = select p xs in if p x then x ∷ rest else rest

abbrev pub any {ℓ} : {A : Type ℓ} → (A → Bool) → List A → Bool
any p [] = false
any p (x ∷ xs) = p x || any p xs

abbrev pub rule_ids : List RuleDefinition → List String
rule_ids rules = map (λ (r : RuleDefinition). r.rule_id) rules

abbrev pub severities : List RuleDefinition → List Severity
severities rules = map (λ (r : RuleDefinition). r.severity) rules

module _ (decimal_text : String → Option ℤ) where
  abbrev pub outcome : List RuleDefinition → ℕ → Record → EvaluationResult
  outcome rules now txn =
      let live = select (fires_active decimal_text txn) rules in
      let quiet = select (fires_shadow decimal_text txn) rules in
      record {
        determination = determine (rule_ids live);
        matched_rules = rule_ids live ++ map shadow_label (rule_ids quiet);
        highest_severity = highest (severities live);
        evaluation_timestamp = now;
        missing_fields = [];
      }

  abbrev pub specified : List RuleDefinition → ℕ → Record → Result PyError EvaluationResult
  specified rules now txn = elim (first_error decimal_text txn rules) [
    | some e ↦ err e
    | none ↦ ok (outcome rules now txn)
  ]
