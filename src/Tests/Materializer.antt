-- ===== src/Tests/Materializer.antt =====
-- A store that keeps the rows that were pushed, an account with an earlier transaction and one without.
use fraudstream.Prelude.{◌≡◌, refl, String, true, false, [], ◌∷◌, ◌++◌, Option, none, some, arith}
use fraudstream.Prelude.Int.{pos, ==ℤ_iff}
use text.Mathlib.TextEquality.{eq_iff}
use fraudstream.Prelude.Dict.{get}
use fraudstream.Value.{Value, null, bool, num, str, int, truthy, get_value, Record}
use fraudstream.Features
use fraudstream.Features.{
  Kind, integer, real, words, flag, features, returned, miss, zero_for, fill, get_features,
}
use fraudstream.Features.Materializer.{
  Store, velocity_columns, geo_columns, device_columns, extract, extract_all, has_times,
  materialize,
}
use fraudstream.Features.Materializer.Served.{IsOnline, last_value, response, get_features_first}
use fraudstream.Features.Materializer.Columns.{IsConversion}
use fraudstream.Features.Materializer.RoundTrip.{materialize-get_features}

-- Numbers and texts as they are, and the truth of a value.
abbrev as_kind : Kind → Value → Option Value
as_kind integer (num z) = some (num z)
as_kind integer _ = none
as_kind real (num z) = some (num z)
as_kind real _ = none
as_kind words (str s) = some (str s)
as_kind words _ = none
as_kind flag v = some (bool (truthy v))

as_kind-IsConversion : IsConversion as_kind
as_kind-IsConversion integer (num z) w h = (ground (arith, h), ground (arith, h, ==ℤ_iff z (pos 0)))
as_kind-IsConversion integer null w h = absurd (cc)
as_kind-IsConversion integer (bool b) w h = absurd (cc)
as_kind-IsConversion integer (str s) w h = absurd (cc)
as_kind-IsConversion real (num z) w h = (ground (arith, h), ground (arith, h, ==ℤ_iff z (pos 0)))
as_kind-IsConversion real null w h = absurd (cc)
as_kind-IsConversion real (bool b) w h = absurd (cc)
as_kind-IsConversion real (str s) w h = absurd (cc)
as_kind-IsConversion words (str s) w h = (ground (arith, h), ground (arith, h, eq_iff s ""))
as_kind-IsConversion words null w h = absurd (cc)
as_kind-IsConversion words (bool b) w h = absurd (cc)
as_kind-IsConversion words (num z) w h = absurd (cc)
as_kind-IsConversion flag v w h = (ground (arith, h), ground (arith, h))

abbrev Served : Type 0
Served = String → String → Value

abbrev history : Store Served
history = record {
  push = λ source rows s. some (λ a k. last_value a k rows (s a k));
  field = λ s a k. s a k;
}

history-IsOnline : IsOnline as_kind history
history-IsOnline source rows s = ((λ a k. last_value a k rows (s a k)), refl, λ a k. refl)

abbrev nothing_served : Served
nothing_served a k = null

abbrev first_record : Record
first_record =
    ("account_id", str "a-1")
    ∷ ("vel_count_1m", int (pos 6))
    ∷ ("device_first_seen", int (pos 5))
    ∷ []

abbrev later_record : Record
later_record = first_record ++ ("prev_txn_time_ms", int (pos 4)) ∷ []

abbrev zero : Value
zero = int (pos 0)

abbrev velocity_fields : Record
velocity_fields =
    ("vel_count_1m", int (pos 6))
    ∷ ("vel_amount_1m", zero)
    ∷ ("vel_count_5m", zero)
    ∷ ("vel_amount_5m", zero)
    ∷ ("vel_count_1h", zero)
    ∷ ("vel_amount_1h", zero)
    ∷ ("vel_count_24h", zero)
    ∷ ("vel_amount_24h", zero)
    ∷ []

abbrev geo_fields : Record
geo_fields =
    ("geo_country", str "")
    ∷ ("geo_city", str "")
    ∷ ("geo_network_class", str "")
    ∷ ("geo_confidence", zero)
    ∷ ("geo_lat", zero)
    ∷ ("geo_lon", zero)
    ∷ []

abbrev device_fields : Value → Record
device_fields previous =
    ("device_first_seen", int (pos 5))
    ∷ ("device_txn_count", zero)
    ∷ ("device_known_fraud", bool false)
    ∷ ("prev_geo_country", str "")
    ∷ ("prev_txn_time_ms", previous)
    ∷ []

abbrev served_fields : Record
served_fields =
    velocity_fields
    ++ ("geo_country", str "")
      ∷ ("geo_city", str "")
      ∷ ("geo_network_class", str "")
      ∷ ("geo_confidence", zero)
      ∷ device_fields (int (pos 4))

extracted :
    (extract_all as_kind velocity_columns later_record ≡ some velocity_fields)
    × (extract_all as_kind geo_columns later_record ≡ some geo_fields)
    × (extract_all as_kind device_columns later_record ≡ some (device_fields (int (pos 4))))
    × (fill as_kind later_record features ≡ some served_fields)
    × (has_times as_kind (later_record ∷ []) ≡ true)
unfolding extract_all extract fill has_times get get_value Features.field
extracted = (refl, refl, refl, refl, refl)

materialize-get_features_example :
    (s1 : Served) × (materialize as_kind history (later_record ∷ []) nothing_served ≡ some s1)
    × (get_features as_kind true
          (returned (("account_id", str "a-1" ∷ []) ∷ response history s1 "a-1" features))
          "a-1"
        ≡ (("account_id", str "a-1") ∷ served_fields, []))
unfolding get_value get
materialize-get_features_example =
    materialize-get_features as_kind history "a-1" later_record nothing_served history-IsOnline refl
      as_kind-IsConversion velocity_fields geo_fields (device_fields (int (pos 4))) extracted.0
      extracted.1 extracted.2 refl refl served_fields extracted.4 extracted.3

first_extracted :
    (extract_all as_kind device_columns first_record ≡ some (device_fields null))
    × (has_times as_kind (first_record ∷ []) ≡ true)
unfolding extract_all extract has_times get get_value
first_extracted = (refl, refl)

get_features_first_example :
    (s1 : Served) × (materialize as_kind history (first_record ∷ []) nothing_served ≡ some s1)
    × (get_features as_kind true
          (returned (("account_id", str "a-1" ∷ []) ∷ response history s1 "a-1" features))
          "a-1"
        ≡ (zero_for "a-1", miss ∷ []))
unfolding get_value get
get_features_first_example =
    get_features_first as_kind history "a-1" first_record (device_fields null) nothing_served
      history-IsOnline refl first_extracted.1 first_extracted.0 refl
