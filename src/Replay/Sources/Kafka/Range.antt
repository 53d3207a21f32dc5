-- ===== src/Replay/Sources/Kafka/Range.antt =====
-- The reading of a range ends, and which offsets it yields (pipelines/replay/source_adapters.py).
use fraudstream.Prelude.{
  ℕ, zero, suc, ◌+◌, ◌-◌, ◌≤◌, ◌<◌, ◌≡◌, refl, true, false, Option, String, List, [], ◌∷◌, none,
  some, arith, length, ltb, leb, Option-cases, Bool-cases, inl, inr,
}
use fraudstream.Replay.Sources.{Event, EventId, given, position}
use fraudstream.Replay.Sources.Kafka.{
  Message, Poll, nothing, error, message, Config, Consumer, Run, yield_event, stop, resolve_end,
  first_position, get_event_count, event_of, read_range, iter_events,
}

-- Offsets that rise from `low` on and stay below `high`.
abbrev pub RisesTo : ℕ → ℕ → List Event → Type 0
RisesTo low high [] = Unit
RisesTo low high (e ∷ events) =
    (low ≤ e.offset) × (e.offset < high) × RisesTo (suc e.offset) high events

module _ {Bytes : Type 0} (config : Config) (consumer : Consumer Bytes) where
  -- A poll gives no message from before the consumer's position.
  abbrev pub Advances : Type 0
  Advances = (n at : ℕ) (m : Message Bytes) → consumer.poll n at ≡ message m → at ≤ m.offset

  -- What the partition holds: the key and the value at each offset.
  abbrev pub Log : Type 0
  Log = ℕ → Option String × Bytes

  abbrev pub message_at : Log → ℕ → Message Bytes
  message_at log at = record { offset = at; key = (log at).0; value = some (log at).1 }

  -- From the start up to `last`, a poll gives the message of the log at the consumer's position.
  abbrev pub Gives : Log → ℕ → Type 0
  Gives log last =
      (n at : ℕ)
      → config.start_offset ≤ at
      → at < last
      → consumer.poll n at ≡ message (message_at log at)

  -- The id of the message at an offset: its key or, if it has none, the place where it stands.
  abbrev pub id_at : Log → ℕ → EventId
  id_at log at = elim (log at).0 [
    | some k ↦ given k
    | none ↦ position config.topic config.partition at
  ]

  -- The events of n offsets from `low` on.
  abbrev pub events_from : Log → ℕ → ℕ → List Event
  events_from log low zero = []
  events_from log low (suc n) =
      record { event_id = id_at log low; payload = consumer.parse (log low).1; offset = low }
      ∷ events_from log (suc low) n

  module _ (advances : Advances) where
    Ends : ℕ → ℕ → ℕ → ℕ → ℕ → Type 0
    Ends fuel last n at current =
        (run : Run) × (read_range config consumer fuel last n at current ≡ some run)
        × RisesTo at last run.events

    read_range-poll :
        (fuel last n at current : ℕ)
        → ltb current last ≡ true
        → (p : Poll Bytes) → consumer.poll n at ≡ p
        → ((m : Message Bytes)
            → m.offset < last
            → at ≤ m.offset
            → Ends fuel last (suc n) (suc m.offset) m.offset)
        → Ends (suc fuel) last n at current
    unfolding read_range event_of Ends
    read_range-poll fuel last n at current go nothing e ih = (stop, ground (arith, e, go), tt)
    read_range-poll fuel last n at current go error e ih = (stop, ground (arith, e, go), tt)
    read_range-poll fuel last n at current go (message m) e ih =
        let later : at ≤ m.offset = advances n at m e in
        elim (Bool-cases (leb last m.offset)) [
          | inl past ↦ (stop, ground (arith, e, go, past), tt)
          | inr within ↦
              let below : m.offset < last = ground arith in
              let next = ih m below later in
              elim (Option-cases m.value) [
                | inl v ↦
                    (record { events = []; raises = true }, ground (arith, e, go, within, v), tt)
                | inr (value, v) ↦ (
                  yield_event (event_of config consumer m value) next.0,
                  ground (arith, e, go, within, v, next.1),
                  (later, below, next.2),
                )
              ]
        ]

    read_range-Ends : (fuel last n at current : ℕ) → last - at < fuel → Ends fuel last n at current
    unfolding read_range Ends
    read_range-Ends zero last n at current h = absurd (omega arith)
    read_range-Ends (suc fuel) last n at current h = elim (Bool-cases (ltb current last)) [
      | inl go ↦
          read_range-poll fuel last n at current go (consumer.poll n at) refl (λ m below later.
            read_range-Ends fuel last (suc n) (suc m.offset) m.offset (omega arith))
      | inr done ↦ (stop, ground (arith, done), tt)
    ]

    Covers : Log → ℕ → ℕ → ℕ → ℕ → ℕ → Type 0
    Covers log k last n at current =
        read_range config consumer (suc k) last n at current
        ≡ some (record { events = events_from log at k; raises = false })

    read_range_past :
        (last n at current : ℕ)
        → last ≤ at
        → (p : Poll Bytes) → consumer.poll n at ≡ p
        → read_range config consumer 1 last n at current ≡ some stop
    unfolding read_range
    read_range_past last n at current h nothing e = ground (arith, e)
    read_range_past last n at current h error e = ground (arith, e)
    read_range_past last n at current h (message m) e =
        let later : at ≤ m.offset = advances n at m e in ground (arith, e, h, later)

    read_range-Covers :
        (log : Log) (k last n at current : ℕ)
        → Gives log last
        → config.start_offset ≤ at
        → current ≤ at
        → last ≡ at + k
        → Covers log k last n at current
    unfolding read_range event_of Covers
    read_range-Covers log zero last n at current all from behind e =
        read_range_past last n at current (omega arith) (consumer.poll n at) refl
    read_range-Covers log (suc k) last n at current all from behind e =
        let given_here = all n at from (omega arith) in
        let next =
          read_range-Covers log k last (suc n) (suc at) at all (omega arith) (omega arith)
            (omega arith) in
        let go : ltb current last ≡ true = ground arith in
        let within : leb last at ≡ false = ground arith in
        ground (arith, given_here, go, within, next)

    abbrev pub last_offset : ℕ
    last_offset = elim (resolve_end config consumer) [ none ↦ 0 | some last ↦ last ]

    length-RisesTo :
        (low high : ℕ) (events : List Event) → RisesTo low high events → length events ≤ high - low
    length-RisesTo low high [] h = omega arith
    length-RisesTo low high (e ∷ events) h =
        omega (arith, length-RisesTo (suc e.offset) high events h.2)

    -- If a poll gives no message from before the consumer's position, then reading ends, with whatever
    -- timeouts, errors, gaps and tombstones, within as many polls as there are offsets from where the
    -- consumer starts to the end, and one. It yields events at rising offsets from there on and below
    -- the end. The consumer starts at the range's start if the partition holds that offset, and at the
    -- first offset that it holds otherwise, be it below the range.
    pub iter_events-RisesTo :
        (run : Run) × (iter_events config consumer
            (suc (last_offset - first_position config consumer))
          ≡ some run)
        × RisesTo (first_position config consumer) last_offset run.events
        × (length run.events ≤ last_offset - first_position config consumer)
    unfolding iter_events Ends
    iter_events-RisesTo = elim (Option-cases (resolve_end config consumer)) [
      | inl e ↦ (record { events = []; raises = true }, ground (arith, e), tt, omega arith)
      | inr (last, e) ↦
          let first = first_position config consumer in
          let go =
            read_range-Ends (suc (last - first)) last 0 first config.start_offset (omega arith) in
          let end : last_offset ≡ last = ground (arith, e) in
          (
            go.0,
            rw end (ground (arith, e, go.1)),
            rw end go.2,
            rw end (length-RisesTo first last go.0.events go.2),
          )
    ]

    -- If the partition holds the start of the range, a poll gives no message from before the consumer's
    -- position, and from the start up to the end each poll gives the message of the log at that
    -- position, then reading yields the events of exactly these messages in order, each with the id and
    -- the document of its message, as many as get_event_count says; the end itself is left out.
    pub iter_events-events_from :
        (log : Log) (last : ℕ)
        → resolve_end config consumer ≡ some last
        → first_position config consumer ≡ config.start_offset
        → config.start_offset ≤ last
        → Gives log last
        → iter_events config consumer (suc (get_event_count config consumer))
          ≡ some (record {
            events = events_from log config.start_offset (get_event_count config consumer);
            raises = false;
          })
    unfolding iter_events get_event_count Covers
    iter_events-events_from log last e held within all =
        let first = config.start_offset in
        let go =
          read_range-Covers log (last - first) last 0 first first all (omega arith) (omega arith)
            (omega arith) in
        ground (arith, e, held, go)
