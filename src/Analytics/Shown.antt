-- ===== src/Analytics/Shown.antt =====
-- The decision that the dashboard shows for an alert, against the one that was made
-- (analytics/consumers/kafka_consumer.py and pipelines/scoring/job_extension.py).
use fraudstream.Prelude.{
  ℕ, ◌≡◌, ◌≢◌, ◌⊎◌, inl, inr, String, Bool, true, ◌||◌, List, Option, some, arith, if◌then◌else◌,
}
use fraudstream.Prelude.Int.{ℤ}
use fraudstream.Prelude.Equality.{◌==◌, string_eq}
use text.Mathlib.TextEquality.{eq_iff}
use fraudstream.Value.{Record}
use fraudstream.Rules.Model.{RuleDefinition}
use fraudstream.Decision.{Decision, allow, flag, block, is_severe, FraudAlert, evaluate}
use fraudstream.Decision.Agreement.{evaluate-IsConsistent}
use fraudstream.Analytics.{shown_decision}

-- A severity that a rule can have.
abbrev pub is_severity : String → Bool
is_severity s = s == "low" || s == "medium" || s == "high" || s == "critical"

IsShown : Decision → String → Type 0
IsShown made s =
    made ≡ (if is_severe s then block else flag)
    → (shown_decision s ≡ (if s == "low" then some allow else some made)) × (made ≢ allow)

severity-cases :
    (s : String)
    → is_severity s ≡ true
    → ((s ≡ "low") ⊎ (s ≡ "medium")) ⊎ ((s ≡ "high") ⊎ (s ≡ "critical"))
severity-cases s h =
    ground (arith, h, eq_iff s "low", eq_iff s "medium", eq_iff s "high", eq_iff s "critical")

severity-IsShown : (made : Decision) (s : String) → is_severity s ≡ true → IsShown made s
unfolding IsShown shown_decision
severity-IsShown made s known = elim (severity-cases s known) [
  | inl (inl e) ↦ rw e (λ h. ground (arith, h))
  | inl (inr e) ↦ rw e (λ h. ground (arith, h))
  | inr (inl e) ↦ rw e (λ h. ground (arith, h))
  | inr (inr e) ↦ rw e (λ h. ground (arith, h))
]

module _ (decimal_text : String → Option ℤ) (rules : List RuleDefinition) (now : ℕ)
    (txn : Record) where
  -- The dashboard shows the decision that was made for an alert of severity medium, high or critical,
  -- and shows an alert of severity low as allowed, which no transaction with an alert is.
  pub shown_decision-evaluate :
      (a : FraudAlert)
      → (evaluate decimal_text rules now txn).alert ≡ some a
      → is_severity a.severity ≡ true
      → let made = (evaluate decimal_text rules now txn).decision.decision in
        (shown_decision a.severity ≡ (if a.severity == "low" then some allow else some made))
        × (made ≢ allow)
  unfolding IsShown
  shown_decision-evaluate a h known =
      let made = (evaluate decimal_text rules now txn).decision.decision in
      let agrees : made ≡ (if is_severe a.severity then block else flag) =
        ground (arith, h, evaluate-IsConsistent decimal_text rules now txn) in
      severity-IsShown made a.severity known agrees
