-- ===== src/Alerts/ShadowDecision/Mismatch.antt =====
-- What the record of a shadow decision says of the rules (pipelines/scoring/sinks/shadow_decisions_kafka.py).
use fraudstream.Prelude.{
  ℕ, String, ◌≡◌, refl, ap, Bool, true, false, not, List, [], ◌∷◌, Option, none, some, arith,
  if◌then◌else◌,
}
use fraudstream.Prelude.Int.{ℤ}
use fraudstream.Prelude.Results.{ok}
use fraudstream.Value.{Record}
use fraudstream.Rules.Model.{Severity, low, medium, high, critical, severity_name, RuleDefinition}
use fraudstream.Rules.Evaluator.{EvaluationResult, max_severity, highest, determine, is_clean}
use fraudstream.Rules.Outcome.{
  fires_active, fires_shadow, first_error, select, any, rule_ids, severities,
}
use fraudstream.Rules.Shadow.{shadow_rules, dispatch_shadow}
use fraudstream.Rules.Shadow.Refines.{shadow_outcome, dispatch_shadow-eq-specified}
use fraudstream.Decision.{evaluate}
use fraudstream.Decision.Outcome.{evaluate-decision, called_for, active-of-severe}
use fraudstream.Alerts.ShadowDecision.{
  severity_score, severity_or_medium, as_determination, estimate_shadow_score, build_record,
}

abbrev pub is_medium : Severity → Bool
is_medium low = false
is_medium medium = true
is_medium high = false
is_medium critical = false

abbrev pub is_high : Severity → Bool
is_high low = false
is_high medium = false
is_high high = true
is_high critical = false

abbrev pub is_critical : Severity → Bool
is_critical low = false
is_critical medium = false
is_critical high = false
is_critical critical = true

-- exactly one of the two
abbrev pub xor : Bool → Bool → Bool
xor a b = if a then not b else b

-- The score of the gravest of some severities, by which of them there are.
abbrev pub score_of_gravest : List Severity → ℕ
score_of_gravest l =
    if any is_critical l
    then 95
    else if any is_high l
    then 80
    else if any is_medium l
    then 65
    else 50

score-max_severity :
    (best : Severity) (l : List Severity)
    → severity_score (severity_name (max_severity best l)) ≡ score_of_gravest (best ∷ l)
unfolding max_severity severity_score
score-max_severity low [] = refl
score-max_severity medium [] = refl
score-max_severity high [] = refl
score-max_severity critical [] = refl
score-max_severity best (s ∷ l) = ground (arith, score-max_severity best l, score-max_severity s l)

named : (s : Severity) → severity_or_medium (some (severity_name s)) ≡ severity_name s
named low = refl
named medium = refl
named high = refl
named critical = refl

-- 0.1 where there is none.
abbrev pub score_or_clean : List Severity → ℕ
score_or_clean [] = 10
score_or_clean (s ∷ l) = score_of_gravest (s ∷ l)

estimate-quiet :
    (quiet : List RuleDefinition) (r : EvaluationResult)
    → r.determination ≡ determine (rule_ids quiet)
    → r.highest_severity ≡ highest (severities quiet)
    → estimate_shadow_score r ≡ score_or_clean (severities quiet)
unfolding estimate_shadow_score highest
estimate-quiet [] r p q = ground arith
estimate-quiet (x ∷ quiet) r p q =
    let s = max_severity x.severity (severities quiet) in
    ground (arith, named s, score-max_severity x.severity (severities quiet))

module _ (decimal_text : String → Option ℤ) (txn : Record) where
  -- The shadow score that the shadow rules which fire call for.
  abbrev pub shadow_score_of : List RuleDefinition → ℕ
  shadow_score_of rules = score_or_clean (severities (select (fires_shadow decimal_text txn) rules))

  is_clean-shadow :
      (rules : List RuleDefinition)
      → is_clean (determine (rule_ids (select (fires_shadow decimal_text txn) rules)))
        ≡ not (any (fires_shadow decimal_text txn) rules)
  is_clean-shadow [] = refl
  is_clean-shadow (r ∷ rules) = ground (arith, is_clean-shadow rules)

  first_error-shadow_rules :
      (rules : List RuleDefinition)
      → first_error decimal_text txn rules ≡ none
      → first_error decimal_text txn (shadow_rules rules) ≡ none
  unfolding first_error shadow_rules
  first_error-shadow_rules [] h = h
  first_error-shadow_rules (r ∷ rules) h = ground (arith, first_error-shadow_rules rules)

  dispatch_shadow-outcome :
      (rules : List RuleDefinition) (now : ℕ) (s : EvaluationResult)
      → first_error decimal_text txn rules ≡ none
      → (dispatch_shadow decimal_text rules now txn).0 ≡ ok s
      → s ≡ shadow_outcome decimal_text rules now txn
  dispatch_shadow-outcome rules now s h found = ground (
    arith,
    first_error-shadow_rules rules h,
    dispatch_shadow-eq-specified decimal_text rules now txn,
  )

  fires-called_for :
      (rules : List RuleDefinition)
      → is_clean (as_determination (called_for decimal_text txn rules))
        ≡ not (any (fires_active decimal_text txn) rules)
  fires-called_for rules = ground (arith, active-of-severe decimal_text txn rules)

  -- If no enabled rule raises, the record for the decision and the shadow result of a transaction
  -- has a mismatch if and only if active rules fire and no shadow rule does, or the other way
  -- round, and its shadow score is the one of the gravest shadow rule that fires.
  pub build_record-mismatch :
      (rules : List RuleDefinition) (now : ℕ) (s : EvaluationResult) (account v w : String)
      → first_error decimal_text txn rules ≡ none
      → (dispatch_shadow decimal_text rules now txn).0 ≡ ok s
      → let d = build_record (evaluate decimal_text rules now txn).decision s account v w in
        (d.decision_mismatch
          ≡ xor
              (any (fires_active decimal_text txn) rules)
              (any (fires_shadow decimal_text txn) rules))
        × (d.shadow_fraud_score ≡ shadow_score_of rules)
  unfolding build_record
  build_record-mismatch rules now s account v w h found =
      let e = dispatch_shadow-outcome rules now s h found in
      let quiet = select (fires_shadow decimal_text txn) rules in
      (
        ground (
          arith,
          e,
          is_clean-shadow rules,
          fires-called_for rules,
          evaluate-decision decimal_text txn rules now,
        ),
        estimate-quiet quiet s (ap (λ r. r.determination) e) (ap (λ r. r.highest_severity) e),
      )
