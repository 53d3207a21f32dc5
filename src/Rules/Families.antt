-- ===== src/Rules/Families.antt =====
-- pipelines/scoring/rules/families/{velocity,impossible_travel,new_device}.py: the tests of the
-- three rule families. `decimal_text` is `Decimal` on a text, none where it raises.
use fraudstream.Prelude.{String, Bool, true, false, not, ◌||◌, Option, none, some, if◌then◌else◌}
use fraudstream.Prelude.Int.{ℤ}
use fraudstream.Prelude.Results.{Result, ok, err, ◌>>=◌}
use fraudstream.Value.{
  Value, null, bool, num, str, PyError, invalid_operation, Record, get_value, has, item, gt, ge, le,
  equal, distance, is_none, truthy,
}

or_invalid : Option ℤ → Result PyError Value
or_invalid none = err invalid_operation
or_invalid (some z) = ok (num z)

-- txn.get(field), where only a text is a field's name
abbrev pub field_of : Record → Value → Value
field_of txn (str k) = get_value k txn
field_of txn _ = null

-- `a and b`, where b is evaluated only if a is true
and_then : Bool → Result PyError Bool → Result PyError Bool
and_then true r = r
and_then false r = ok false

is_true : Value → Bool
is_true (bool b) = b
is_true _ = false

module _ (decimal_text : String → Option ℤ) where
  -- Decimal(str(v))
  unfoldable pub decimal : Value → Result PyError Value
  unfolding or_invalid
  decimal (num z) = ok (num z)
  decimal (str s) = or_invalid (decimal_text s)
  decimal _ = err invalid_operation

  unfoldable pub evaluate_velocity : Record → Record → Result PyError Bool
  evaluate_velocity txn conditions =
      let field = get_value "field" conditions in
      let value = field_of txn field in
      if is_none field
      then ok false
      else if is_none value
      then ok false
      else if has "count" conditions
      then (do count ← item "count" conditions; gt value count)
      else if has "amount" conditions
      then (do amount ← item "amount" conditions; limit ← decimal amount; gt value limit)
      else ok false

  -- ND-001
  unfoldable pub evaluate_nd001 : Record → Record → Result PyError Bool
  evaluate_nd001 txn conditions =
      let txn_amount = get_value "txn_amount" txn in
      if not (truthy (get_value "device_is_new" txn))
      then ok false
      else if is_none txn_amount
      then ok false
      else do amount ← item "amount" conditions; limit ← decimal amount; gt txn_amount limit

-- ND-002
unfoldable pub evaluate_nd002 : Record → Record → Result PyError Bool
unfolding and_then
evaluate_nd002 txn conditions =
    let device_count_24h = get_value "device_count_24h" txn in
    let vel_count_1m = get_value "vel_count_1m" txn in
    if not (truthy (get_value "device_is_new" txn))
    then ok false
    else if is_none device_count_24h || is_none vel_count_1m
    then ok false
    else do
      device_count ← item "device_count" conditions
      many_devices ← ge device_count_24h device_count
      and_then many_devices (do vel_count ← item "vel_count" conditions; ge vel_count_1m vel_count)

-- ND-003
unfoldable pub evaluate_nd003 : Record → Result PyError Bool
unfolding is_true
evaluate_nd003 txn = ok (is_true (get_value "device_known_fraud" txn))

-- ND-004
unfoldable pub evaluate_nd004 : Record → Record → Result PyError Bool
evaluate_nd004 txn conditions =
    let geo_network_class = get_value "geo_network_class" txn in
    if not (truthy (get_value "device_is_new" txn))
    then ok false
    else if is_none geo_network_class
    then ok false
    else do
      network_class ← item "network_class" conditions
      ok (equal geo_network_class network_class)

module _ (decimal_text : String → Option ℤ) where
  unfoldable pub evaluate_new_device : Record → Record → Result PyError Bool
  unfolding evaluate_nd001 evaluate_nd002 evaluate_nd003 evaluate_nd004
  evaluate_new_device txn conditions =
      if has "amount" conditions
      then evaluate_nd001 decimal_text txn conditions
      else if has "device_count" conditions
      then evaluate_nd002 txn conditions
      else if has "network_class" conditions
      then evaluate_nd004 txn conditions
      else evaluate_nd003 txn

unfoldable pub evaluate_impossible_travel : Record → Record → Result PyError Bool
evaluate_impossible_travel txn conditions =
    let prev_geo_country = get_value "prev_geo_country" txn in
    let prev_txn_time_ms = get_value "prev_txn_time_ms" txn in
    let current_country = get_value "geo_country" txn in
    let current_time_ms = get_value "txn_time_ms" txn in
    if is_none prev_geo_country
    then ok false
    else if is_none prev_txn_time_ms
    then ok false
    else if is_none current_country
    then ok false
    else if is_none current_time_ms
    then ok false
    else if equal prev_geo_country current_country
    then ok false
    else if has "window_ms" conditions
    then (do
      time_delta ← distance current_time_ms prev_txn_time_ms
      window_ms ← item "window_ms" conditions
      le time_delta window_ms)
    else ok false
