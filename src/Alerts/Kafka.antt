-- ===== src/Alerts/Kafka.antt =====
-- pipelines/scoring/sinks/alert_kafka.py: AlertKafkaSink. The producer is a parameter: whether a
-- call raises and which delivery reports `poll` serves are arguments.
pub mod Accounting
use fraudstream.Prelude.{
  ℕ, zero, suc, String, Bool, true, false, ◌&&◌, List, [], ◌∷◌, ◌++◌, Option, none, some,
  if◌then◌else◌,
}
use fraudstream.Decision.{FraudAlert}

-- A message to the alerts topic, or to its DLQ topic with the text of the error.
pub data Message : Type 0 where
  alert_message : FraudAlert → Message
  dlq_message : FraudAlert → String → Message

-- RuntimeError of a sink that is not open; ValueError, TypeError or AttributeError; any other
-- (KafkaException, BufferError).
pub data EmitError : Type 0 where
  not_open bad_record producer_error : EmitError

-- A delivery report: for which of the messages in flight, its error, and whether the DLQ message
-- that an error leads to can be serialised and is taken by the producer.
pub record Report : Type 0 where
  pub place : ℕ
  pub error : Option String
  pub serialises : Bool
  pub is_taken : Bool

-- `lost` has the alerts whose loss is only logged.
pub record Kafka : Type 0 where
  pub is_open : Bool
  pub in_flight : List Message
  pub delivered : List Message
  pub lost : List FraudAlert

-- The message at a place, and the others; none if there is none.
abbrev pub pick : ℕ → List Message → Option (Message × List Message)
pick i [] = none
pick zero (m ∷ messages) = some (m, messages)
pick (suc i) (m ∷ messages) = elim (pick i messages) [ none ↦ none | some p ↦ some (p.0, m ∷ p.1) ]

abbrev add_in_flight : Message → Kafka → Kafka
add_in_flight m s = record s { in_flight = s.in_flight ++ m ∷ [] }

abbrev add_lost : FraudAlert → Kafka → Kafka
add_lost a s = record s { lost = s.lost ++ a ∷ [] }

abbrev add_delivered : Message → Kafka → Kafka
add_delivered m s = record s { delivered = s.delivered ++ m ∷ [] }

-- _on_delivery and _on_dlq_delivery
unfoldable pub on_delivery : Report → Message → Kafka → Kafka
on_delivery report (alert_message a) s = elim report.error [
  | none ↦ add_delivered (alert_message a) s
  | some e ↦
      if report.serialises && report.is_taken
      then add_in_flight (dlq_message a e) s
      else add_lost a s
]
on_delivery report (dlq_message a e) s = elim report.error [
  | none ↦ add_delivered (dlq_message a e) s
  | some _ ↦ add_lost a s
]

-- poll: each report calls the callback of its message
unfoldable pub poll : List Report → Kafka → Kafka
unfolding on_delivery
poll [] s = s
poll (r ∷ reports) s =
    let same = poll reports s in
    elim (pick r.place s.in_flight) [
      | none ↦ same
      | some p ↦ poll reports (on_delivery r p.0 (record s { in_flight = p.1 }))
    ]

-- What happens during one `emit`: what _serialise and produce raise, and the reports of poll(0).
pub record Emission : Type 0 where
  pub serialise_error : Option EmitError
  pub produce_error : Option EmitError
  pub reports : List Report

-- emit
unfoldable pub emit : Emission → FraudAlert → Kafka → Option EmitError × Kafka
unfolding poll
emit emission a s =
    if s.is_open
    then elim emission.serialise_error [
      | some e ↦ (some e, s)
      | none ↦ elim emission.produce_error [
        | some e ↦ (some e, s)
        | none ↦ (none, poll emission.reports (add_in_flight (alert_message a) s))
      ]
    ]
    else (some not_open, s)

-- close: flush serves reports, then the producer is dropped
unfoldable pub close : List Report → Kafka → Kafka
unfolding poll
close reports s = if s.is_open then record (poll reports s) { is_open = false } else s
