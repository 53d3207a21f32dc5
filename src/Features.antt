-- ===== src/Features.antt =====
-- pipelines/scoring/clients/feature_serving.py: FeatureServingClient.get_features. The feature store
-- is a parameter, as are `int`, `float` and `str` on the values that it gives. A feature vector is
-- the record of its fields.
pub mod Fallback
pub mod Materializer
use fraudstream.Prelude.{
  String, Bool, true, false, not, ◌&&◌, ◌||◌, List, [], ◌∷◌, Option, none, some, if◌then◌else◌,
}
use fraudstream.Prelude.Int.{ℤ, pos}
use fraudstream.Prelude.Equality.{◌==◌, string_eq}
use fraudstream.Prelude.Dict.{Dict}
use fraudstream.Value.{Value, null, bool, num, str, int, is_none, truthy, get_value, Record}

-- The types of the fields of FeatureVector: int, float, str, bool.
pub data Kind : Type 0 where
  integer real words flag : Kind

-- The fields of FeatureVector after account_id, in order.
abbrev pub features : List (String × Kind)
features =
    ("vel_count_1m", integer)
    ∷ ("vel_amount_1m", real)
    ∷ ("vel_count_5m", integer)
    ∷ ("vel_amount_5m", real)
    ∷ ("vel_count_1h", integer)
    ∷ ("vel_amount_1h", real)
    ∷ ("vel_count_24h", integer)
    ∷ ("vel_amount_24h", real)
    ∷ ("geo_country", words)
    ∷ ("geo_city", words)
    ∷ ("geo_network_class", words)
    ∷ ("geo_confidence", real)
    ∷ ("device_first_seen", integer)
    ∷ ("device_txn_count", integer)
    ∷ ("device_known_fraud", flag)
    ∷ ("prev_geo_country", words)
    ∷ ("prev_txn_time_ms", integer)
    ∷ []

-- 0, 0.0, "" and False
abbrev pub zero_value : Kind → Value
zero_value integer = int (pos 0)
zero_value real = num (pos 0)
zero_value words = str ""
zero_value flag = bool false

abbrev pub zeros : List (String × Kind) → Record
zeros [] = []
zeros ((k, kind) ∷ fields) = (k, zero_value kind) ∷ zeros fields

-- _zero_for
unfoldable pub zero_for : String → Record
zero_for account_id = ("account_id", str account_id) ∷ zeros features

-- How the call of the store ends within the timeout.
pub data Fetch : Type 0 where
  returned : Dict String (List Value) → Fetch
  timed_out raised : Fetch

-- The counters: a miss, and a fallback by its reason.
pub data Count : Type 0 where
  miss fallback_timeout fallback_unavailable : Count

-- {k: v[0] for k, v in raw.items() if k != "account_id"}, none where a list is empty
unfoldable pub first_values : Dict String (List Value) → Option Record
first_values [] = some []
first_values ((k, []) ∷ raw) = if k == "account_id" then first_values raw else none
first_values ((k, v ∷ _) ∷ raw) =
    let rest = first_values raw in
    if k == "account_id"
    then rest
    else elim rest [ none ↦ none | some values ↦ some ((k, v) ∷ values) ]

unfoldable pub all_none : Record → Bool
all_none [] = true
all_none ((_, v) ∷ values) = is_none v && all_none values

unfoldable pub any_none : Record → Bool
any_none [] = false
any_none ((_, v) ∷ values) = is_none v || any_none values

-- Python's conversion to a kind, none where it raises.
module _ (convert : Kind → Value → Option Value) where
  -- int(values.get(k) or 0) and the like
  unfoldable pub field : Record → String → Kind → Option Value
  unfolding get_value
  field values k kind =
      let v = get_value k values in convert kind (if truthy v then v else zero_value kind)

  unfoldable pub fill : Record → List (String × Kind) → Option Record
  unfolding field
  fill values [] = some []
  fill values ((k, kind) ∷ fields) = elim (field values k kind) [
    | none ↦ none
    | some v ↦ elim (fill values fields) [ none ↦ none | some rest ↦ some ((k, v) ∷ rest) ]
  ]

  -- The `try` on values that are there.
  unfoldable pub vector_of : String → Record → Record × List Count
  unfolding zero_for all_none any_none fill
  vector_of account_id values =
      if all_none values
      then (zero_for account_id, miss ∷ [])
      else if any_none values
      then (zero_for account_id, miss ∷ [])
      else elim (fill values features) [
        | none ↦ (zero_for account_id, fallback_unavailable ∷ [])
        | some fields ↦ (("account_id", str account_id) ∷ fields, [])
      ]

  -- get_features, with what it counts; a client that is not open counts nothing
  unfoldable pub get_features : Bool → Fetch → String → Record × List Count
  unfolding zero_for first_values vector_of
  get_features false fetch account_id = (zero_for account_id, [])
  get_features true timed_out account_id = (zero_for account_id, fallback_timeout ∷ [])
  get_features true raised account_id = (zero_for account_id, fallback_unavailable ∷ [])
  get_features true (returned raw) account_id = elim (first_values raw) [
    | none ↦ (zero_for account_id, fallback_unavailable ∷ [])
    | some values ↦ vector_of account_id values
  ]
