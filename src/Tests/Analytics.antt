-- ===== src/Tests/Analytics.antt =====
-- A feed with room for one alert, and a transaction that a rule of severity low finds.
use fraudstream.Prelude.{
  ℕ, ◌≤◌, ◌≡◌, ◌≢◌, refl, [], ◌∷◌, ◌++◌, some, List, arith, length, if◌then◌else◌,
}
use fraudstream.Prelude.Equality.{◌==◌, string_eq}
use fraudstream.Value
use fraudstream.Rules.Model.{RuleDefinition, low}
use fraudstream.Rules.Evaluator.{dispatch, evaluate_rule, family_dispatch, enabled_rules}
use fraudstream.Rules.Families.{evaluate_velocity}
use fraudstream.Decision.{allow, FraudAlert, evaluate}
use fraudstream.Analytics.{
  Turn, dashboard_takes, undecodable, alert, consumer_fails, shown_decision, init, run, step,
}
use fraudstream.Analytics.Feed.{alerts, failures, run_feed}
use fraudstream.Analytics.Shown.{shown_decision-evaluate}
use fraudstream.Tests.Rules.{no_text, burst, txn}

abbrev turns : List (Turn ℕ)
turns =
    alert 1 0 0
    ∷ alert 2 0 0
    ∷ undecodable
    ∷ alert 3 1 0
    ∷ consumer_fails
    ∷ dashboard_takes
    ∷ alert 4 0 0
    ∷ []

feed_run : let s = run turns (init 1) in (s.queue ≡ 4 ∷ []) × (s.removed ≡ 1 ∷ 2 ∷ 3 ∷ [])
unfolding run step
feed_run = (refl, refl)

run_feed_example :
    let s = run turns (init 1) in
    (s.removed ++ s.queue ≡ alerts turns)
    × (length s.queue ≤ 1)
    × (s.events_consumed ≡ length (alerts turns))
    × (s.restarts ≡ failures turns)
run_feed_example = run_feed turns 1 (omega arith)

abbrev mild : RuleDefinition
mild = record burst { severity = low }

abbrev mild_alert : FraudAlert
mild_alert = record {
  transaction_id = Value.str "t-1";
  account_id = Value.str "a-1";
  matched_rule_names = "VEL-001" ∷ [];
  severity = "low";
  evaluation_timestamp = 7;
}

mild_run : (evaluate no_text (mild ∷ []) 7 txn).alert ≡ some mild_alert
unfolding evaluate dispatch evaluate_rule family_dispatch evaluate_velocity enabled_rules
    Value.get_value Value.has Value.item Value.gt
mild_run = refl

shown_decision-evaluate_example :
    let made = (evaluate no_text (mild ∷ []) 7 txn).decision.decision in
    (shown_decision "low" ≡ (if mild_alert.severity == "low" then some allow else some made))
    × (made ≢ allow)
shown_decision-evaluate_example =
    shown_decision-evaluate no_text (mild ∷ []) 7 txn mild_alert mild_run refl
