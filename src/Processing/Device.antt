-- ===== src/Processing/Device.antt =====
-- pipelines/processing/operators/device.py: the profile of the device behind an API key. The keyed
-- state of one key is an `Option Profile`.
pub mod History
pub mod Eviction
use fraudstream.Prelude.{
  ℕ, ◌+◌, ◌*◌, String, Bool, true, false, List, [], ◌∷◌, Option, none, some, if◌then◌else◌,
}
use fraudstream.Prelude.Int.{ℤ, pos, ◌+ℤ◌}
use fraudstream.Prelude.Equality.{◌==◌, string_eq}
use fraudstream.Value.{Value, null, bool, int, Record, get_value}

-- _IDLE_TTL_MS
abbrev pub idle_ttl_ms : ℕ
idle_ttl_ms = 7 * 24 * 3600 * 1000

-- DeviceProfileState
pub record Profile : Type 0 where
  pub first_seen_ms : ℤ
  pub txn_count : ℕ
  pub known_fraud : Bool
  pub last_seen_ms : ℤ
  pub last_geo_country : Value

-- _NULL_DEVICE_FIELDS
abbrev pub null_device_fields : Record
null_device_fields =
    ("device_first_seen", null)
    ∷ ("device_txn_count", null)
    ∷ ("device_known_fraud", null)
    ∷ ("prev_geo_country", null)
    ∷ ("prev_txn_time_ms", null)
    ∷ []

abbrev pub prev_country : Option Profile → Value
prev_country none = null
prev_country (some p) = p.last_geo_country

abbrev pub prev_time : Option Profile → Value
prev_time none = null
prev_time (some p) = int p.last_seen_ms

-- The profile after an event at `event_time_ms` from `country`.
unfoldable pub update_profile : ℤ → Value → Option Profile → Profile
update_profile event_time_ms country none = record {
  first_seen_ms = event_time_ms;
  txn_count = 1;
  known_fraud = false;
  last_seen_ms = event_time_ms;
  last_geo_country = country;
}
update_profile event_time_ms country (some current) = record {
  first_seen_ms = current.first_seen_ms;
  txn_count = current.txn_count + 1;
  known_fraud = current.known_fraud;
  last_seen_ms = event_time_ms;
  last_geo_country = country;
}

abbrev pub device_fields : Profile → Option Profile → Record
device_fields updated current =
    ("device_first_seen", int updated.first_seen_ms)
    ∷ ("device_txn_count", int (pos updated.txn_count))
    ∷ ("device_known_fraud", bool updated.known_fraud)
    ∷ ("prev_geo_country", prev_country current)
    ∷ ("prev_txn_time_ms", prev_time current)
    ∷ []

-- not api_key_id
abbrev pub no_key : Option String → Bool
no_key none = true
no_key (some k) = k == ""

-- What `process_element` did: the new state, the timers that it registered, the emitted fields.
pub record Processed : Type 0 where
  pub state : Option Profile
  pub timers : List ℤ
  pub fields : Record

-- process_element
unfoldable pub process_element : Option String → ℤ → Record → Option Profile → Processed
unfolding update_profile
process_element api_key_id event_time_ms geo current =
    let updated = update_profile event_time_ms (get_value "geo_country" geo) current in
    if no_key api_key_id
    then record { state = current; timers = []; fields = null_device_fields }
    else record {
      state = some updated;
      timers = (event_time_ms +ℤ pos idle_ttl_ms) ∷ [];
      fields = device_fields updated current;
    }

-- on_timer: self._state.clear()
unfoldable pub on_timer : ℤ → Option Profile → Option Profile
on_timer timestamp current = none
