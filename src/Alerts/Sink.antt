-- ===== src/Alerts/Sink.antt =====
-- pipelines/scoring/job_extension.py: _AlertSinkFunction, one alert to Kafka and then to PostgreSQL.
use fraudstream.Prelude.{◌+◌, ◌≡◌, ◌⊎◌, String, Bool, Option, none, some, arith}
use fraudstream.Value.{Value}
use fraudstream.Decision.{FraudAlert}
use fraudstream.Alerts.Kafka.{EmitError, bad_record, Kafka, Emission, emit}
use fraudstream.Alerts.Kafka.Accounting.{one, total, emits, total-step}
use fraudstream.Alerts.Postgres.{Server, Postgres, persist, insert_row}
use fraudstream.Alerts.Postgres.Idempotent.{persist_ok}

pub record Alerting : Type 0 where
  pub kafka : Kafka
  pub postgres : Postgres

-- except (ValueError, TypeError, AttributeError)
abbrev pub passes_on : Option EmitError → Option EmitError
passes_on none = none
passes_on (some bad_record) = none
passes_on (some e) = some e

-- map; `some e` is an exception
unfoldable pub map_alert :
    (Value → String) → Emission → Server → FraudAlert → Alerting → Option EmitError × Alerting
unfolding emit persist
map_alert key emission server a s =
    let (raised, kafka) = emit emission a s.kafka in
    elim (passes_on raised) [
      | some e ↦ (some e, record s { kafka = kafka })
      | none ↦ (none, record { kafka = kafka; postgres = (persist key server a s.postgres).1 })
    ]

emit_raised :
    (emission : Emission) (a : FraudAlert) (s : Kafka) (e : EmitError)
    → (emit emission a s).0 ≡ some e
    → (emit emission a s).1 ≡ s
unfolding emit
emit_raised emission a s e h = ground arith

emit_returned :
    (chosen : FraudAlert → Bool) (emission : Emission) (a : FraudAlert) (s : Kafka)
    → (emit emission a s).0 ≡ none
    → total chosen (emit emission a s).1 ≡ one chosen a + total chosen s
emit_returned chosen emission a s h = ground (arith, total-step chosen (emits emission a) s)

-- If the function raises, then neither the producer's messages nor the table have changed, so that
-- a restarted job finds them as they were before the alert.
pub map_alert_raised :
    (key : Value → String) (emission : Emission) (server : Server) (a : FraudAlert) (s : Alerting)
    → (e : EmitError) → (map_alert key emission server a s).0 ≡ some e
    → (map_alert key emission server a s).1 ≡ s
unfolding map_alert
map_alert_raised key emission server a s e h = ground (arith, emit_raised emission a s.kafka)

-- If the function returns, then the producer has taken one message with the alert, unless the alert
-- could not be encoded, and if `persist` returned too, then the table is the old one with the
-- alert's row, which is added only if the transaction has none.
pub map_alert_returned :
    (key : Value → String) (emission : Emission) (server : Server) (a : FraudAlert) (s : Alerting)
    → (chosen : FraudAlert → Bool) → (map_alert key emission server a s).0 ≡ none
    → (total chosen (map_alert key emission server a s).1.kafka
          ≡ one chosen a + total chosen s.kafka
        ⊎ (emission.serialise_error ≡ some bad_record ⊎ emission.produce_error ≡ some bad_record))
      × ((persist key server a s.postgres).0 ≡ none
          → (map_alert key emission server a s).1.postgres.table
            ≡ insert_row key a s.postgres.table)
unfolding map_alert
map_alert_returned key emission server a s chosen h =
    ground (arith, emit_returned chosen emission a s.kafka, persist_ok key server a s.postgres)
