-- ===== src/Tests/Processing.antt =====
-- The operators of the stream processor.
use fraudstream.Prelude.{ℕ, ◌+◌, ◌≡◌, refl, String, true, false, List, [], ◌∷◌, none, some, arith}
use fraudstream.Prelude.Int.{ℤ, pos, ◌+ℤ◌, ◌-ℤ◌}
use fraudstream.Prelude.Dict.{get, put}
use fraudstream.Prelude.Results.{ok}
use fraudstream.Value.{int, null, str, Record, has}
use fraudstream.Rules.Families.{evaluate_impossible_travel}
use fraudstream.Processing.Dlq.{Ambient}
use fraudstream.Processing.Velocity
use fraudstream.Processing.Velocity.{Event, Total, VelocityFields, emitted, bucket_of}
use fraudstream.Processing.Velocity.History.{
  System, initial, receive_event, velocity_of, Reach, here, next, receive, advance,
}
use fraudstream.Processing.Velocity.Refines.{emitted-velocity_of}
use fraudstream.Processing.Device
use fraudstream.Processing.Device.History.{Seen, run, fields_of, process_element-fields}
use fraudstream.Processing.Enricher.{RawTransaction, flat_map}
use fraudstream.Processing.Enricher.DeadRules.{impossible_travel_dead}
use fraudstream.Processing.Enricher.Dedup.{
  ttl_ms, Arrival, is_seen, process_element, let_through, process_element_pure,
}
use fraudstream.Processing.Enricher.Dedup.Spacing.{
  clocks_of, are_spaced, are_covered, let_through-spaced,
}

abbrev ambient : Ambient
ambient = record { uuid = "u"; now_ms = pos 0; host = "h" }

abbrev event : ℤ → Event
event t = record { transaction_id = some "t"; amount = pos 50; event_time_ms = t }

-- Two events two minutes apart, the watermark, and the timer that evicts buckets of a day before.
abbrev second : System
second =
    receive_event ambient 30000 (event (pos 86_520_000))
      (receive_event ambient 30000 (event (pos 86_400_000)) initial)

abbrev late_watermark : System
late_watermark = record second { watermark = pos 86_510_000 }

reached : Reach 30000 late_watermark
reached =
    next
      (next (next here (receive ambient (event (pos 86_400_000)) initial)) (
        receive ambient (event (pos 86_520_000))
          (receive_event ambient 30000 (event (pos 86_400_000)) initial)))
      (advance (pos 86_510_000) second (omega arith) (λ e. cc))

abbrev three : Total
three = record { count = 3; amount = pos 150 }

abbrev all_three : VelocityFields
all_three = record { last_1m = three; last_5m = three; last_1h = three; last_24h = three }

third_run :
    (Velocity.process_element ambient 30000
      (pos 86_510_000)
      (event (pos 86_500_000))
      late_watermark.state).1
    ≡ emitted all_three true
unfolding Velocity.process_element ◌+ℤ◌ ◌-ℤ◌
third_run = refl

evicted_run :
    (Velocity.on_timer (pos 172_901_000) late_watermark.state).buckets
    ≡ (pos 1442, Velocity.one (pos 50)) ∷ []
unfolding Velocity.process_element Velocity.on_timer ◌+ℤ◌ ◌-ℤ◌
evicted_run = refl

emitted-velocity_of_example :
    all_three ≡ velocity_of (event (pos 86_500_000)) late_watermark.history
emitted-velocity_of_example =
    emitted-velocity_of ambient 30000 (event (pos 86_500_000)) late_watermark {v = all_three}
      {late = true} (omega arith) reached third_run

abbrev from_spain : Record
from_spain = ("geo_country", str "ES") ∷ []

abbrev seen : ℤ → Seen
seen t = record { event_time_ms = t; geo = from_spain }

process_element-fields_example :
    (Device.process_element
      (some "key")
      (pos 30)
      from_spain
      (run "key" (seen (pos 20) ∷ seen (pos 10) ∷ []))).fields
    ≡ fields_of (seen (pos 30)) (seen (pos 20) ∷ seen (pos 10) ∷ [])
process_element-fields_example =
    process_element-fields "key" refl (seen (pos 30)) (seen (pos 20) ∷ seen (pos 10) ∷ [])

abbrev raw : RawTransaction
raw = record {
  transaction_id = "t-1";
  account_id = "a-1";
  merchant_id = "m-1";
  amount = pos 50;
  currency = "EUR";
  event_time = pos 30;
  processing_time = pos 31;
  channel = "API";
  card_bin = "411111";
  card_last4 = "1111";
  caller_ip_subnet = "203.0.113.0";
  api_key_id = "key";
  oauth_scope = "txn:write";
  geo_lat = null;
  geo_lon = null;
  masking_lib_version = "1";
}

-- Sixty seconds ago the same device was in another country.
abbrev moved : Record
moved = ("prev_geo_country", str "BR") ∷ ("prev_txn_time_ms", int (pos 1)) ∷ []

abbrev within_an_hour : Record
within_an_hour = ("window_ms", int (pos 3_600_000)) ∷ []

impossible_travel_dead_example :
    evaluate_impossible_travel (flat_map "v" (pos 40) raw all_three from_spain moved) within_an_hour
    ≡ ok false
impossible_travel_dead_example =
    impossible_travel_dead "v" (pos 40) raw all_three from_spain moved within_an_hour

abbrev two_devices : Record
two_devices = ("device_count", int (pos 2)) ∷ ("vel_count", int (pos 1)) ∷ []

not_amount : has "amount" two_devices ≡ false
unfolding has
not_amount = refl

on_device_count : has "device_count" two_devices ≡ true
unfolding has
on_device_count = refl

abbrev arrival : String → ℕ → Arrival
arrival id clock = record { txn_id = id; timestamp = pos 1; clock = clock }

-- The last arrival comes 48 h after the first.
abbrev arrivals : List Arrival
arrivals = arrival "t-1" 5 ∷ arrival "t-2" 6 ∷ arrival "t-1" 7 ∷ arrival "t-1" (5 + ttl_ms) ∷ []

let_through-spaced_example :
    (are_spaced none (clocks_of "t-1" (let_through arrivals [])) ≡ true)
    × (are_covered (clocks_of "t-1" (let_through arrivals [])) (clocks_of "t-1" arrivals) ≡ true)
let_through-spaced_example = let_through-spaced "t-1" arrivals refl

let_through_run : clocks_of "t-1" (let_through arrivals []) ≡ 5 ∷ (5 + ttl_ms) ∷ []
unfolding let_through process_element is_seen get put
let_through_run = refl

pure_run :
    let (seen, kept) = process_element_pure "t-1" (pos 1) [] in
    (kept ≡ true) × ((process_element_pure "t-1" (pos 9) seen).1 ≡ false)
unfolding process_element_pure get
pure_run = (refl, refl)
