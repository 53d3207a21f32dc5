-- ===== src/Tests/Alerts.antt =====
-- The alert sinks, with a delivery that fails and an insert whose answer is lost.
use fraudstream.Prelude.{◌+◌, ◌≡◌, refl, String, Bool, true, false, List, [], ◌∷◌, none, some}
use fraudstream.Prelude.Equality.{◌==◌, string_eq}
use fraudstream.Value.{Value, str}
use fraudstream.Decision.{FraudAlert}
use fraudstream.Alerts.Postgres.{Server, Postgres, executed, unanswered, insert_row, persist}
use fraudstream.Alerts.Postgres.Idempotent
use fraudstream.Alerts.Postgres.Idempotent.{
  find, count, or_else, alerts, count-run, find-run, run_again,
}
use fraudstream.Alerts.Kafka.{
  emit, poll, Kafka, Emission, Report, alert_message, dlq_message, producer_error,
}
use fraudstream.Alerts.Kafka.Accounting
use fraudstream.Alerts.Kafka.Accounting.{one, total, emits, polls, total-run}
use fraudstream.Alerts.Sink.{Alerting, map_alert}

abbrev text : Value → String
text (str s) = s
text _ = ""

abbrev alert : String → FraudAlert
alert i = record {
  transaction_id = str i;
  account_id = str "a";
  matched_rule_names = "VEL-001" ∷ [];
  severity = "high";
  evaluation_timestamp = 7;
}

-- The first answer is lost, the second try meets the row.
abbrev flaky : Server
flaky = record {
  ping = false;
  connects = true;
  insert = unanswered;
  reconnects = true;
  insert_again = executed;
}

abbrev empty : Postgres
empty = record { connected = true; table = [] }

abbrev call : String → Idempotent.Call
call i = record { server = flaky; alert = alert i }

abbrev calls : List Idempotent.Call
calls = call "t-1" ∷ call "t-2" ∷ call "t-1" ∷ []

two_rows :
    Idempotent.run text calls empty
    ≡ (true, record { connected = true; table = alert "t-1" ∷ alert "t-2" ∷ [] })
unfolding Idempotent.run persist insert_row
two_rows = refl

returned : (Idempotent.run text calls empty).0 ≡ true
unfolding Idempotent.run persist insert_row
returned = refl

find-run_example :
    find text "t-1" (Idempotent.run text calls empty).1.table
    ≡ or_else text (find text "t-1" empty.table) (find text "t-1" (alerts text calls))
find-run_example = find-run text "t-1" calls empty returned

abbrev opened : Kafka
opened = record { is_open = true; in_flight = []; delivered = []; lost = [] }

abbrev failed : Report
failed = record { place = 0; error = some "timed out"; serialises = true; is_taken = true }

abbrev taken : Emission
taken = record { serialise_error = none; produce_error = none; reports = [] }

abbrev traffic : List Accounting.Call
traffic = emits taken (alert "t-1") ∷ emits taken (alert "t-2") ∷ polls (failed ∷ []) ∷ []

abbrev is_t1 : FraudAlert → Bool
is_t1 a = text a.transaction_id == "t-1"

rerouted :
    (Accounting.run is_t1 traffic opened).1.in_flight
    ≡ alert_message (alert "t-2") ∷ dlq_message (alert "t-1") "timed out" ∷ []
unfolding Accounting.run emit poll
rerouted = refl

total-run_example :
    total is_t1 (Accounting.run is_t1 traffic opened).1
    ≡ (Accounting.run is_t1 traffic opened).0 + total is_t1 opened
total-run_example = total-run is_t1 traffic opened

abbrev alerting : Alerting
alerting = record { kafka = opened; postgres = empty }

abbrev queue_full : Emission
queue_full = record { serialise_error = none; produce_error = some producer_error; reports = [] }

full_raises : (map_alert text queue_full flaky (alert "t-1") alerting).0 ≡ some producer_error
unfolding map_alert
full_raises = refl

taken_returns : (map_alert text taken flaky (alert "t-1") alerting).0 ≡ none
unfolding map_alert
taken_returns = refl
