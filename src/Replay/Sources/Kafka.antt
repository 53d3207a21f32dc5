-- ===== src/Replay/Sources/Kafka.antt =====
-- pipelines/replay/source_adapters.py: KafkaSourceAdapter, which reads a range of offsets of one
-- partition. `end_offset` below 0 stands for the latest.
pub mod Range
use fraudstream.Prelude.{
  ℕ, zero, suc, ◌+◌, ◌-◌, String, Bool, true, false, ◌&&◌, List, [], ◌∷◌, Option, none, some, leb,
  ltb, if◌then◌else◌,
}
use fraudstream.Prelude.Int.{ℤ, pos, negsuc}
use fraudstream.Json.{Json}
use fraudstream.Replay.Sources.{Event, given, position}

-- A message: its value is none for a tombstone; its key as a text, none if it is missing or empty.
pub record Message (Bytes : Type 0) : Type 0 where
  pub offset : ℕ
  pub key : Option String
  pub value : Option Bytes

-- consumer.poll: None, a message that is an error, a message
pub data Poll (Bytes : Type 0) : Type 0 where
  nothing : Poll Bytes
  error : Poll Bytes
  message : Message Bytes → Poll Bytes

pub record Config : Type 0 where
  pub topic : String
  pub partition : ℕ
  pub start_offset : ℕ
  pub end_offset : ℤ

pub record Consumer (Bytes : Type 0) : Type 0 where
  -- the first offset that the partition still holds, and the one after its last: a consumer that is
  -- assigned an offset out of these starts at the first (auto.offset.reset is earliest)
  pub earliest : ℕ
  pub latest : ℕ
  -- the high watermark of the assigned partition: none where a call raises, some none where there is
  -- no assignment or no watermark
  pub watermark : Option (Option ℕ)
  -- the answer to the n-th poll at a position
  pub poll : ℕ → ℕ → Poll Bytes
  -- the document of a value, or {"raw": text} where it is none
  pub parse : Bytes → Json

-- The events that were yielded, and whether the iteration then raises.
pub record Run : Type 0 where
  pub events : List Event
  pub raises : Bool

abbrev pub yield_event : Event → Run → Run
yield_event e r = record r { events = e ∷ r.events }

abbrev pub stop : Run
stop = record { events = []; raises = false }

module _ {Bytes : Type 0} (config : Config) (consumer : Consumer Bytes) where
  -- self.config.end_offset, or the watermark; an end below 0 leaves nothing to read
  unfoldable pub resolve_end : Option ℕ
  resolve_end = elim config.end_offset [
    | pos n ↦ some n
    | negsuc _ ↦ elim consumer.watermark [
      | none ↦ none
      | some latest ↦ elim latest [ none ↦ some 0 | some high ↦ some high ]
    ]
  ]

  -- get_event_count, 0 where the watermark cannot be read
  unfoldable pub get_event_count : ℕ
  unfolding resolve_end
  get_event_count = elim resolve_end [ none ↦ 0 | some e ↦ e - config.start_offset ]

  unfoldable pub event_of : Message Bytes → Bytes → Event
  event_of m value = record {
    event_id = elim m.key [
      | some k ↦ given k
      | none ↦ position config.topic config.partition m.offset
    ];
    payload = consumer.parse value;
    offset = m.offset;
  }

  -- The loop at the n-th poll: the consumer's position and current_offset. none is out of fuel.
  unfoldable pub read_range : ℕ → ℕ → ℕ → ℕ → ℕ → Option Run
  unfolding event_of
  read_range zero last n at current = none
  read_range (suc fuel) last n at current = elim (ltb current last) [
    | false ↦ some stop
    | true ↦ elim (consumer.poll n at) [
      | nothing ↦ some stop
      | error ↦ some stop
      | message m ↦ elim (leb last m.offset) [
        | true ↦ some stop
        | false ↦ elim m.value [
          | none ↦ some (record { events = []; raises = true })
          | some value ↦ elim (read_range fuel last (suc n) (suc m.offset) m.offset) [
            | none ↦ none
            | some rest ↦ some (yield_event (event_of m value) rest)
          ]
        ]
      ]
    ]
  ]

  -- Where the consumer stands after `assign`.
  abbrev pub first_position : ℕ
  first_position =
      if leb consumer.earliest config.start_offset && leb config.start_offset consumer.latest
      then config.start_offset
      else consumer.earliest

  -- iter_events
  unfoldable pub iter_events : ℕ → Option Run
  unfolding resolve_end read_range
  iter_events fuel = elim resolve_end [
    | none ↦ some (record { events = []; raises = true })
    | some last ↦ read_range fuel last 0 first_position config.start_offset
  ]
