-- ===== src/Processing/Enricher/NewDevice.antt =====
-- The device fields of an enriched record, from the device operator to the rules
-- (pipelines/processing/operators/{device,enricher}.py).
use fraudstream.Prelude.{◌≡◌, ◌∙◌, refl, ap, String, Bool, true, false, List, [], ◌∷◌, some, arith}
use fraudstream.Prelude.Int.{ℤ}
use fraudstream.Value.{Record, bool, get_value}
use fraudstream.Processing.Velocity.{VelocityFields}
use fraudstream.Processing.Device.{no_key, process_element}
use fraudstream.Processing.Device.History.{Seen, run, fields_of, process_element-fields}
use fraudstream.Processing.Enricher.{RawTransaction, device_is_new, flat_map}

abbrev pub is_empty : List Seen → Bool
is_empty [] = true
is_empty (_ ∷ _) = false

device_is_new-fields_of :
    (e : Seen) (earlier : List Seen) → device_is_new (fields_of e earlier) ≡ is_empty earlier
unfolding device_is_new
device_is_new-fields_of e [] = refl
device_is_new-fields_of e (d ∷ earlier) = ground arith

flat_map-device_is_new :
    (version : String) (t : ℤ) (txn : RawTransaction) (velocity : VelocityFields)
    (geo device : Record)
    → get_value "device_is_new" (flat_map version t txn velocity geo device)
      ≡ bool (device_is_new device)
unfolding flat_map get_value
flat_map-device_is_new version t txn velocity geo device = refl

-- For a key that is not empty, the enriched record says that the device is new exactly if no event
-- of the key came before since its profile was created.
pub device_is_new_first :
    (version : String) (t : ℤ) (txn : RawTransaction) (velocity : VelocityFields) (geo : Record)
    (key : String) (e : Seen) (earlier : List Seen)
    → no_key (some key) ≡ false
    → get_value "device_is_new" (
        flat_map version t txn velocity geo
          (process_element (some key) e.event_time_ms e.geo (run key earlier)).fields)
      ≡ bool (is_empty earlier)
device_is_new_first version t txn velocity geo key e earlier h =
    flat_map-device_is_new version t txn velocity geo
      (process_element (some key) e.event_time_ms e.geo (run key earlier)).fields
    ∙ ap (λ d. bool (device_is_new d)) (process_element-fields key h e earlier)
    ∙ ap bool (device_is_new-fields_of e earlier)
