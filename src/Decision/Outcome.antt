-- ===== src/Decision/Outcome.antt =====
-- Which decision a transaction gets, from the rules that fire (pipelines/scoring/job_extension.py).
use fraudstream.Prelude.{
  ℕ, String, ◌≡◌, refl, ◌∙◌, not, Bool, true, ◌&&◌, ◌||◌, List, [], ◌∷◌, Option, none, some, arith,
  leb, if◌then◌else◌,
}
use fraudstream.Prelude.Int.{ℤ}
use fraudstream.Value.{Record}
use fraudstream.Rules.Model.{
  Severity, rank, RuleDefinition, low, medium, high, critical, severity_name,
}
use fraudstream.Rules.Evaluator.{max_severity, highest, determine, is_clean}
use fraudstream.Rules.Outcome.{
  fires_active, first_error, select, any, rule_ids, severities, outcome,
}
use fraudstream.Rules.Outcome.Refines.{dispatch-eq-specified}
use fraudstream.Decision.{
  Decision, allow, flag, block, is_severe, severity_or_low, decide, evaluate,
}

abbrev pub severe : Severity → Bool
severe s = leb 2 (rank s)

severe-max_severity :
    (best : Severity) (l : List Severity)
    → severe (max_severity best l) ≡ (severe best || any severe l)
unfolding max_severity
severe-max_severity best [] = ground arith
severe-max_severity best (s ∷ l) =
    ground (arith, severe-max_severity best l, severe-max_severity s l)

is_severe-severity_name :
    (s : Severity) → is_severe (severity_or_low (some (severity_name s))) ≡ severe s
is_severe-severity_name low = refl
is_severe-severity_name medium = refl
is_severe-severity_name high = refl
is_severe-severity_name critical = refl

is_severe-highest : (l : List Severity) → is_severe (severity_or_low (highest l)) ≡ any severe l
unfolding highest
is_severe-highest [] = refl
is_severe-highest (s ∷ l) = is_severe-severity_name (max_severity s l) ∙ severe-max_severity s l

module _ (decimal_text : String → Option ℤ) (txn : Record) where
  -- An enabled active rule of severity high or critical fires.
  abbrev pub fires_severe : RuleDefinition → Bool
  fires_severe r = fires_active decimal_text txn r && severe r.severity

  any-severities :
      (rules : List RuleDefinition)
      → any severe (severities (select (fires_active decimal_text txn) rules))
        ≡ any fires_severe rules
  any-severities [] = refl
  any-severities (r ∷ rules) = ground (arith, any-severities rules)

  is_clean-determine :
      (rules : List RuleDefinition)
      → is_clean (determine (rule_ids (select (fires_active decimal_text txn) rules)))
        ≡ not (any (fires_active decimal_text txn) rules)
  is_clean-determine [] = refl
  is_clean-determine (r ∷ rules) = ground (arith, is_clean-determine rules)

  -- The decision that the rules which fire call for.
  abbrev pub called_for : List RuleDefinition → Decision
  called_for rules =
      if any fires_severe rules
      then block
      else if any (fires_active decimal_text txn) rules
      then flag
      else allow

  abbrev pub specified_decision : List RuleDefinition → Decision
  specified_decision rules = elim (first_error decimal_text txn rules) [
    | some e ↦ allow
    | none ↦ called_for rules
  ]

  pub active-of-severe :
      (rules : List RuleDefinition)
      → any fires_severe rules ≡ true
      → any (fires_active decimal_text txn) rules ≡ true
  active-of-severe [] h = h
  active-of-severe (r ∷ rules) h = ground (arith, active-of-severe rules)

  decide-outcome :
      (rules : List RuleDefinition) (now : ℕ)
      → decide (outcome decimal_text rules now txn) ≡ called_for rules
  decide-outcome rules now =
      simp (is_clean-determine, is_severe-highest, any-severities)
        (ground (arith, active-of-severe rules))

  -- The decision is BLOCK if an enabled active rule of severity high or critical fires, FLAG if
  -- only enabled active rules of lower severity do, ALLOW if none fires, and ALLOW too if an
  -- enabled rule raises.
  pub evaluate-decision :
      (rules : List RuleDefinition) (now : ℕ)
      → (evaluate decimal_text rules now txn).decision.decision ≡ specified_decision rules
  unfolding evaluate
  evaluate-decision rules now =
      ground (arith, dispatch-eq-specified decimal_text rules now txn, decide-outcome rules now)
