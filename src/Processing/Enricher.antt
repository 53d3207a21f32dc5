-- ===== src/Processing/Enricher.antt =====
-- pipelines/processing/operators/enricher.py: duplicate suppression, and the enriched record.
pub mod Dedup
pub mod DeadRules
pub mod NewDevice
use fraudstream.Prelude.{
  ℕ, ◌*◌, String, Bool, true, false, not, List, [], ◌∷◌, Option, none, some, if◌then◌else◌,
}
use fraudstream.Prelude.Int.{ℤ, pos, ◌-ℤ◌, ltb_ℤ}
use fraudstream.Prelude.Equality.{string_eq}
use fraudstream.Prelude.Dict.{Dict, get, put}
use fraudstream.Value.{Value, null, bool, num, str, int, Record, get_value, equal, truthy}
use fraudstream.Processing.Velocity.{Total, VelocityFields}

-- pipelines/processing/shared/avro_serde.py: RawTransaction. `amount` is in units of 1/10000.
pub record RawTransaction : Type 0 where
  pub transaction_id : String
  pub account_id : String
  pub merchant_id : String
  pub amount : ℤ
  pub currency : String
  pub event_time : ℤ
  pub processing_time : ℤ
  pub channel : String
  pub card_bin : String
  pub card_last4 : String
  pub caller_ip_subnet : String
  pub api_key_id : String
  pub oauth_scope : String
  pub geo_lat : Value
  pub geo_lon : Value
  pub masking_lib_version : String

-- v or 0
abbrev pub or_zero : Value → Value
or_zero v = if truthy v then v else int (pos 0)

-- (device_dict.get("device_txn_count") or 0) == 1
unfoldable pub device_is_new : Record → Bool
unfolding get_value equal
device_is_new device = equal (or_zero (get_value "device_txn_count" device)) (int (pos 1))

abbrev pub total_count : Total → Value
total_count t = int (pos t.count)

abbrev pub total_amount : Total → Value
total_amount t = num t.amount

-- _assemble_record
unfoldable pub assemble_record :
    String → RawTransaction → VelocityFields → Record → Record → ℤ → ℤ → Record
unfolding device_is_new
assemble_record processor_version txn velocity geo device enrichment_time enrichment_latency_ms =
    ("transaction_id", str txn.transaction_id)
    ∷ ("account_id", str txn.account_id)
    ∷ ("merchant_id", str txn.merchant_id)
    ∷ ("amount", num txn.amount)
    ∷ ("currency", str txn.currency)
    ∷ ("event_time", int txn.event_time)
    ∷ ("processing_time", int txn.processing_time)
    ∷ ("channel", str txn.channel)
    ∷ ("card_bin", str txn.card_bin)
    ∷ ("card_last4", str txn.card_last4)
    ∷ ("caller_ip_subnet", str txn.caller_ip_subnet)
    ∷ ("api_key_id", str txn.api_key_id)
    ∷ ("oauth_scope", str txn.oauth_scope)
    ∷ ("geo_lat", txn.geo_lat)
    ∷ ("geo_lon", txn.geo_lon)
    ∷ ("masking_lib_version", str txn.masking_lib_version)
    ∷ ("vel_count_1m", total_count velocity.last_1m)
    ∷ ("vel_amount_1m", total_amount velocity.last_1m)
    ∷ ("vel_count_5m", total_count velocity.last_5m)
    ∷ ("vel_amount_5m", total_amount velocity.last_5m)
    ∷ ("vel_count_1h", total_count velocity.last_1h)
    ∷ ("vel_amount_1h", total_amount velocity.last_1h)
    ∷ ("vel_count_24h", total_count velocity.last_24h)
    ∷ ("vel_amount_24h", total_amount velocity.last_24h)
    ∷ ("geo_country", get_value "geo_country" geo)
    ∷ ("geo_city", get_value "geo_city" geo)
    ∷ ("geo_network_class", get_value "geo_network_class" geo)
    ∷ ("geo_confidence", get_value "geo_confidence" geo)
    ∷ ("device_first_seen", get_value "device_first_seen" device)
    ∷ ("device_txn_count", get_value "device_txn_count" device)
    ∷ ("device_known_fraud", get_value "device_known_fraud" device)
    ∷ ("prev_geo_country", get_value "prev_geo_country" device)
    ∷ ("prev_txn_time_ms", get_value "prev_txn_time_ms" device)
    ∷ ("device_is_new", bool (device_is_new device))
    ∷ ("txn_amount", num txn.amount)
    ∷ ("enrichment_time", int enrichment_time)
    ∷ ("enrichment_latency_ms", int enrichment_latency_ms)
    ∷ ("processor_version", str processor_version)
    ∷ ("schema_version", str "1")
    ∷ []

-- max(0, enrichment_time - txn.processing_time)
abbrev pub latency : ℤ → ℤ → ℤ
latency enrichment_time processing_time =
    let d = enrichment_time -ℤ processing_time in if ltb_ℤ (pos 0) d then d else pos 0

-- EnrichedRecordAssembler.flat_map at the clock's value `enrichment_time`; the emitted record is
-- the one given to the Iceberg sink.
unfoldable pub flat_map : String → ℤ → RawTransaction → VelocityFields → Record → Record → Record
unfolding assemble_record
flat_map processor_version enrichment_time txn velocity geo device =
    assemble_record processor_version txn velocity geo device enrichment_time
      (latency enrichment_time txn.processing_time)
