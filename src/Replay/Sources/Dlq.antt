-- ===== src/Replay/Sources/Dlq.antt =====
-- pipelines/replay/source_adapters.py: DLQSourceAdapter, which reads the messages of one source topic
-- from a dead-letter topic, within a range of times.
pub mod Reading
use Prim.Native.Nat.{min}
use fraudstream.Prelude.{
  ◌+◌, ◌-◌, ℕ, zero, suc, String, Bool, true, false, not, ◌&&◌, List, [], ◌∷◌, Option, none, some,
  ltb, if◌then◌else◌,
}
use fraudstream.Prelude.Int.{ℤ, ltb_ℤ}
use fraudstream.Value.{str}
use fraudstream.Json.{
  Json, Fields, scalar, arr, obj, none_json, find_field, get_or, truthy_json, same_json,
}
use fraudstream.Replay.Sources.{Event, dlq_offset, document}

-- A datetime: its instant in µs, and whether it has a time zone.
pub record Time : Type 0 where
  pub instant : ℤ
  pub is_aware : Bool

-- a < b, none where it raises TypeError: an aware time does not compare with a naive one
abbrev pub lt_time : Time → Time → Option Bool
lt_time a b =
    if a.is_aware
    then (if b.is_aware then some (ltb_ℤ a.instant b.instant) else none)
    else (if b.is_aware then none else some (ltb_ℤ a.instant b.instant))

-- The offset of a message and its value as a document, which is {"raw": text} for a value that is no
-- JSON; none for a tombstone.
pub record Message : Type 0 where
  pub offset : ℕ
  pub value : Option Json

pub data Poll : Type 0 where
  nothing error : Poll
  message : Message → Poll

pub record Config : Type 0 where
  pub source_topic : String
  pub start_time : Option String
  pub end_time : Option String
  pub max_messages : ℕ

-- datetime.fromisoformat(str(v).replace("Z", "+00:00")), none where it raises
abbrev pub Parser : Type 0
Parser = Json → Option Time

-- Bounds that are set.
pub record Bounds : Type 0 where
  pub start : Option Time
  pub end : Option Time

pub data Verdict : Type 0 where
  keep : Event → Verdict
  skip raise : Verdict

pub record Run : Type 0 where
  pub events : List Event
  pub raises : Bool

abbrev pub yield_event : Event → Run → Run
yield_event e r = record r { events = e ∷ r.events }

abbrev pub stop : Run
stop = record { events = []; raises = false }

-- a < b is true, where a bound that is not set decides nothing
abbrev pub is_less : Option Bool → Bool
is_less none = false
is_less (some b) = b

-- `start_time and msg_dt < start_time`, then `end_time and msg_dt > end_time`; a TypeError of the
-- first comparison passes over the second
unfoldable pub out_of_bounds : Bounds → Time → Bool
out_of_bounds b t =
    let late : Bool = elim b.end [ none ↦ false | some e ↦ is_less (lt_time e t) ] in
    elim b.start [
      | none ↦ late
      | some s ↦ elim (lt_time t s) [ none ↦ false | some early ↦ if early then true else late ]
    ]

abbrev pub are_set : Bounds → Bool
are_set b = elim b.start [ some _ ↦ true | none ↦ elim b.end [ some _ ↦ true | none ↦ false ] ]

module _ (parse_time : Parser) (config : Config) where
  -- `if self.config.start_time: datetime.fromisoformat(...)`, none where it raises
  unfoldable pub parse_bound : Option String → Option (Option Time)
  parse_bound none = some none
  parse_bound (some s) =
      if truthy_json (scalar (str s))
      then elim (parse_time (scalar (str s))) [ none ↦ none | some t ↦ some (some t) ]
      else some none

  -- The message is of another source topic.
  abbrev pub is_foreign : Fields → Bool
  is_foreign fields =
      let topic = get_or "source_topic" (get_or "original_topic" (scalar (str "")) fields) fields in
      truthy_json topic && not (same_json topic (scalar (str config.source_topic)))

  -- The time of the message is out of the range.
  unfoldable pub is_untimely : Bounds → Fields → Bool
  unfolding out_of_bounds
  is_untimely b fields =
      let time = get_or "timestamp" (get_or "error_time" none_json fields) fields in
      are_set b
      && truthy_json time
      && elim (parse_time time) [ none ↦ false | some t ↦ out_of_bounds b t ]

  unfoldable pub event_of : ℕ → Fields → Event
  unfolding find_field
  event_of offset fields = record {
    event_id = elim (find_field "original_id" fields) [
      | some i ↦ document i
      | none ↦ dlq_offset offset
    ];
    payload = get_or "original_payload" (obj fields) fields;
    offset = offset;
  }

  -- The body of the loop on a message; `.get` of a value that is no dict raises.
  unfoldable pub judge : Bounds → Message → Verdict
  unfolding find_field same_json is_untimely event_of
  judge b m = elim m.value [
    | none ↦ raise
    | some value ↦ elim value [
      | scalar _ ↦ raise
      | arr _ ↦ raise
      | obj fields ↦
          if is_foreign fields
          then skip
          else if is_untimely b fields
          then skip
          else keep (event_of m.offset fields)
    ]
  ]

  module _ (poll : ℕ → Poll) where
    -- The loop at the n-th poll; none is out of fuel.
    unfoldable pub read_messages : Bounds → ℕ → ℕ → ℕ → Option Run
    unfolding judge
    read_messages b zero n count = none
    read_messages b (suc fuel) n count = elim (ltb count config.max_messages) [
      | false ↦ some stop
      | true ↦ elim (poll n) [
        | nothing ↦ some stop
        | error ↦ read_messages b fuel (suc n) count
        | message m ↦ elim (judge b m) [
          | raise ↦ some (record { events = []; raises = true })
          | skip ↦ read_messages b fuel (suc n) count
          | keep e ↦ elim (read_messages b fuel (suc n) (suc count)) [
            | none ↦ none
            | some rest ↦ some (yield_event e rest)
          ]
        ]
      ]
    ]

    -- iter_events, from the n-th poll on
    unfoldable pub iter_events : ℕ → ℕ → Option Run
    unfolding parse_bound read_messages
    iter_events n fuel = elim (parse_bound config.start_time) [
      | none ↦ some (record { events = []; raises = true })
      | some start ↦ elim (parse_bound config.end_time) [
        | none ↦ some (record { events = []; raises = true })
        | some end ↦ read_messages (record { start = start; end = end }) fuel n 0
      ]
    ]

    -- How a job uses the adapter: it counts the messages first, with the first poll of the consumer.
    unfoldable pub iter_events_of_job : ℕ → Option Run
    unfolding iter_events
    iter_events_of_job fuel = iter_events 1 fuel

-- The low and high watermarks of a partition, none where there are none
abbrev pub Watermarks : Type 0
Watermarks = Option (ℕ × ℕ)

-- _count_dlq_messages after its poll; none where a call of the consumer raises
unfoldable pub count_dlq_messages : Option (List Watermarks) → ℕ
count_dlq_messages none = 0
count_dlq_messages (some []) = 0
count_dlq_messages (some (none ∷ partitions)) = count_dlq_messages (some partitions)
count_dlq_messages (some (some (low, high) ∷ partitions)) =
    (high - low) + count_dlq_messages (some partitions)

unfoldable pub get_event_count : Config → Option (List Watermarks) → ℕ
unfolding count_dlq_messages
get_event_count config partitions = min config.max_messages (count_dlq_messages partitions)
