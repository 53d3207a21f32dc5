-- ===== src/Processing/Device/History.antt =====
-- The device fields against the events of the key (pipelines/processing/operators/device.py).
use fraudstream.Prelude.{◌≡◌, refl, String, false, List, [], ◌∷◌, Option, none, some, arith, length}
use fraudstream.Prelude.Int.{ℤ, pos}
use fraudstream.Value.{Value, null, bool, int, Record, get_value}
use fraudstream.Processing.Device.{Profile, no_key, process_element}

pub record Seen : Type 0 where
  pub event_time_ms : ℤ
  pub geo : Record

abbrev pub first_time : Seen → List Seen → ℤ
first_time e [] = e.event_time_ms
first_time e (d ∷ earlier) = first_time d earlier

-- The profile that the events of a key, the last one first, add up to.
abbrev pub profile_of : List Seen → Option Profile
profile_of [] = none
profile_of (e ∷ earlier) = some (record {
  first_seen_ms = first_time e earlier;
  txn_count = length (e ∷ earlier);
  known_fraud = false;
  last_seen_ms = e.event_time_ms;
  last_geo_country = get_value "geo_country" e.geo;
})

abbrev pub last_country : List Seen → Value
last_country [] = null
last_country (e ∷ _) = get_value "geo_country" e.geo

abbrev pub last_time : List Seen → Value
last_time [] = null
last_time (e ∷ _) = int e.event_time_ms

-- The fields that the record of `e` must have after the events `earlier`.
abbrev pub fields_of : Seen → List Seen → Record
fields_of e earlier =
    ("device_first_seen", int (first_time e earlier))
    ∷ ("device_txn_count", int (pos (length (e ∷ earlier))))
    ∷ ("device_known_fraud", bool false)
    ∷ ("prev_geo_country", last_country earlier)
    ∷ ("prev_txn_time_ms", last_time earlier)
    ∷ []

-- The state of the key after its events, the last one first, if no timer fired.
unfoldable pub run : String → List Seen → Option Profile
run key [] = none
run key (e ∷ earlier) = (process_element (some key) e.event_time_ms e.geo (run key earlier)).state

module _ (key : String) (keyed : no_key (some key) ≡ false) where
  run-eq-profile_of : (events : List Seen) → run key events ≡ profile_of events
  unfolding run process_element
  run-eq-profile_of [] = refl
  run-eq-profile_of (e ∷ []) = ground arith
  run-eq-profile_of (e ∷ d ∷ earlier) = ground (arith, run-eq-profile_of (d ∷ earlier))

  -- For a key that is not empty, after any events of it and no timer, the record of the next event
  -- has the first event's time, the number of events, and the country and time of the event before.
  pub process_element-fields :
      (e : Seen) (earlier : List Seen)
      → (process_element (some key) e.event_time_ms e.geo (run key earlier)).fields
        ≡ fields_of e earlier
  unfolding process_element
  process_element-fields e [] = ground (arith, run-eq-profile_of [])
  process_element-fields e (d ∷ earlier) = ground (arith, run-eq-profile_of (d ∷ earlier))
