-- ===== src/Alerts/Kafka/Accounting.antt =====
-- Where every alert that the producer took is (pipelines/scoring/sinks/alert_kafka.py).
use fraudstream.Prelude.{
  ℕ, zero, suc, ◌+◌, ◌≡◌, refl, String, Bool, List, [], ◌∷◌, ◌++◌, none, some, arith, Option-cases,
  inl, inr, if◌then◌else◌,
}
use fraudstream.Decision.{FraudAlert}
use fraudstream.Alerts.Kafka.{
  Message, alert_message, dlq_message, Report, Kafka, pick, on_delivery, poll, Emission, emit,
  close,
}

-- What a caller does with the sink.
pub data Call : Type 0 where
  emits : Emission → FraudAlert → Call
  polls : List Report → Call
  closes : List Report → Call

abbrev pub alert_of : Message → FraudAlert
alert_of (alert_message a) = a
alert_of (dlq_message a _) = a

-- Some of the alerts, those of one transaction for instance.
module _ (chosen : FraudAlert → Bool) where
  abbrev pub one : FraudAlert → ℕ
  one a = if chosen a then 1 else 0

  abbrev pub count_alerts : List FraudAlert → ℕ
  count_alerts [] = 0
  count_alerts (a ∷ alerts) = one a + count_alerts alerts

  abbrev pub count_messages : List Message → ℕ
  count_messages [] = 0
  count_messages (m ∷ messages) = one (alert_of m) + count_messages messages

  -- Those in flight, delivered to the topic or its DLQ, or logged as lost.
  abbrev pub total : Kafka → ℕ
  total s = count_messages s.in_flight + count_messages s.delivered + count_alerts s.lost

  count_messages-add :
      (ms : List Message) (m : Message)
      → count_messages (ms ++ m ∷ []) ≡ count_messages ms + one (alert_of m)
  count_messages-add [] m = ground arith
  count_messages-add (n ∷ ms) m = ground (arith, count_messages-add ms m)

  count_alerts-add :
      (xs : List FraudAlert) (a : FraudAlert)
      → count_alerts (xs ++ a ∷ []) ≡ count_alerts xs + one a
  count_alerts-add [] a = ground arith
  count_alerts-add (b ∷ xs) a = ground (arith, count_alerts-add xs a)

  count_messages-pick :
      (i : ℕ) (ms : List Message)
      → count_messages ms ≡ elim (pick i ms) [
        | none ↦ count_messages ms
        | some p ↦ one (alert_of p.0) + count_messages p.1
      ]
  count_messages-pick i [] = ground arith
  count_messages-pick zero (m ∷ ms) = refl
  count_messages-pick (suc i) (m ∷ ms) = ground (arith, count_messages-pick i ms)

  total-on_delivery :
      (r : Report) (m : Message) (s : Kafka)
      → total (on_delivery r m s) ≡ one (alert_of m) + total s
  unfolding on_delivery
  total-on_delivery r (alert_message a) s =
      let e : String = elim r.error [ none ↦ "" | some e ↦ e ] in
      ground (
        arith,
        count_messages-add s.in_flight (dlq_message a e),
        count_messages-add s.delivered (alert_message a),
        count_alerts-add s.lost a,
      )
  total-on_delivery r (dlq_message a e) s =
      ground (arith, count_messages-add s.delivered (dlq_message a e), count_alerts-add s.lost a)

  total-poll : (reports : List Report) (s : Kafka) → total (poll reports s) ≡ total s
  unfolding poll
  total-poll [] s = refl
  total-poll (r ∷ reports) s = elim (Option-cases (pick r.place s.in_flight)) [
    | inl e ↦ ground (arith, e, total-poll reports s)
    | inr (p, e) ↦
        let s1 : Kafka = record s { in_flight = p.1 } in
        ground (
          arith,
          e,
          total-poll reports (on_delivery r p.0 s1),
          total-on_delivery r p.0 s1,
          count_messages-pick r.place s.in_flight,
        )
  ]

  abbrev pub step : Call → Kafka → ℕ × Kafka
  step (emits emission a) s =
      let (raised, s1) = emit emission a s in (elim raised [ none ↦ one a | some _ ↦ 0 ], s1)
  step (polls reports) s = (0, poll reports s)
  step (closes reports) s = (0, close reports s)

  -- How many of the chosen alerts were emitted with no exception, and the state in the end.
  unfoldable pub run : List Call → Kafka → ℕ × Kafka
  run [] s = (0, s)
  run (c ∷ calls) s = let (n, s1) = step c s in let (more, s2) = run calls s1 in (n + more, s2)

  pub total-step : (c : Call) (s : Kafka) → total (step c s).1 ≡ (step c s).0 + total s
  unfolding emit close
  total-step (emits emission a) s =
      let s1 : Kafka = record s { in_flight = s.in_flight ++ alert_message a ∷ [] } in
      ground
        (arith, total-poll emission.reports s1, count_messages-add s.in_flight (alert_message a))
  total-step (polls reports) s = ground (arith, total-poll reports s)
  total-step (closes reports) s = ground (arith, total-poll reports s)

  -- After any calls and delivery reports, each alert that was emitted with no exception is exactly
  -- once in flight, delivered to the alerts topic or its DLQ, or logged as lost.
  pub total-run :
      (calls : List Call) (s : Kafka) → total (run calls s).1 ≡ (run calls s).0 + total s
  unfolding run
  total-run [] s = ground arith
  total-run (c ∷ calls) s = ground (arith, total-step c s, total-run calls (step c s).1)
