-- ===== src/Decision/Shadow.antt =====
-- Shadow rules and the decision (pipelines/scoring/job_extension.py).
use fraudstream.Prelude.{ℕ, String, ◌≡◌, refl, not, List, [], ◌∷◌, Option, none, arith}
use fraudstream.Prelude.Int.{ℤ}
use fraudstream.Value.{Record}
use fraudstream.Rules.Model.{RuleDefinition, is_shadow}
use fraudstream.Rules.Outcome.{fires_active, first_error, select, any}
use fraudstream.Decision.{evaluate}
use fraudstream.Decision.Outcome.{fires_severe, evaluate-decision}

-- The rules that are not in shadow mode.
abbrev pub production_rules : List RuleDefinition → List RuleDefinition
production_rules = select (λ r. not (is_shadow r.mode))

module _ (decimal_text : String → Option ℤ) (txn : Record) where
  first_error-production_rules :
      (rules : List RuleDefinition)
      → first_error decimal_text txn rules ≡ none
      → first_error decimal_text txn (production_rules rules) ≡ none
  unfolding first_error
  first_error-production_rules [] h = h
  first_error-production_rules (r ∷ rules) h = ground (arith, first_error-production_rules rules)

  any-production_rules :
      (rules : List RuleDefinition)
      → any (fires_active decimal_text txn) (production_rules rules)
        ≡ any (fires_active decimal_text txn) rules
  any-production_rules [] = refl
  any-production_rules (r ∷ rules) = ground (arith, any-production_rules rules)

  any_severe-production_rules :
      (rules : List RuleDefinition)
      → any (fires_severe decimal_text txn) (production_rules rules)
        ≡ any (fires_severe decimal_text txn) rules
  any_severe-production_rules [] = refl
  any_severe-production_rules (r ∷ rules) = ground (arith, any_severe-production_rules rules)

  -- If no enabled rule raises, the decision is the one that the rules without the shadow rules
  -- give.
  pub evaluate-production_rules :
      (rules : List RuleDefinition) (now : ℕ)
      → first_error decimal_text txn rules ≡ none
      → (evaluate decimal_text rules now txn).decision.decision
        ≡ (evaluate decimal_text (production_rules rules) now txn).decision.decision
  evaluate-production_rules rules now h = simp evaluate-decision (
      ground (
        arith,
        first_error-production_rules rules,
        any-production_rules rules,
        any_severe-production_rules rules,
      ))
