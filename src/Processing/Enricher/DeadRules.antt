-- ===== src/Processing/Enricher/DeadRules.antt =====
-- Rules that read a field which no enriched record has
-- (pipelines/processing/operators/enricher.py, pipelines/scoring/rules/families/).
use fraudstream.Prelude.{◌≡◌, refl, String, true, false, Option, arith}
use fraudstream.Prelude.Int.{ℤ}
use fraudstream.Prelude.Results.{ok}
use fraudstream.Value.{Record, null, get_value, has}
use fraudstream.Rules.Families.{evaluate_impossible_travel, evaluate_new_device}
use fraudstream.Processing.Velocity.{VelocityFields}
use fraudstream.Processing.Enricher.{RawTransaction, flat_map}

module _ (version : String) (t : ℤ) (txn : RawTransaction) (velocity : VelocityFields)
    (geo device : Record) where
  txn_time_ms_absent : get_value "txn_time_ms" (flat_map version t txn velocity geo device) ≡ null
  unfolding flat_map get_value
  txn_time_ms_absent = refl

  device_count_24h_absent :
      get_value "device_count_24h" (flat_map version t txn velocity geo device) ≡ null
  unfolding flat_map get_value
  device_count_24h_absent = refl

  -- No record that the assembler emits meets an impossible-travel rule, whatever the two countries,
  -- times and conditions are.
  pub impossible_travel_dead :
      (conditions : Record)
      → evaluate_impossible_travel (flat_map version t txn velocity geo device) conditions
        ≡ ok false
  unfolding evaluate_impossible_travel
  impossible_travel_dead conditions = ground (arith, txn_time_ms_absent)

  -- No record that the assembler emits meets a new-device rule on the device count.
  pub device_count_dead :
      (decimal_text : String → Option ℤ) (conditions : Record)
      → has "amount" conditions ≡ false
      → has "device_count" conditions ≡ true
      → evaluate_new_device decimal_text (flat_map version t txn velocity geo device) conditions
        ≡ ok false
  unfolding evaluate_new_device
  device_count_dead decimal_text conditions h k = ground (arith, device_count_24h_absent)
