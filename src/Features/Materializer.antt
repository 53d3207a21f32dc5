-- ===== src/Features/Materializer.antt =====
-- pipelines/processing/feature_materializer.py and pipelines/shared/feature_schema.py: the features of
-- a batch of enriched records, pushed to the online store in three groups. The store is a parameter, as
-- are `int`, `float` and `bool`; the staleness gauge is telemetry.
pub mod Served
pub mod Columns
pub mod RoundTrip
use fraudstream.Prelude.{
  String, Bool, true, false, List, [], ◌∷◌, Option, none, some, if◌then◌else◌,
}
use fraudstream.Prelude.Int.{ℤ, pos}
use fraudstream.Prelude.Equality.{◌==◌, string_eq}
use fraudstream.Prelude.Dict.{Dict, get}
use fraudstream.Value.{Value, null, bool, num, str, int, truthy, get_value, Record}
use fraudstream.Features.{Kind, integer, real, words, flag, zero_value}

-- ColumnSpec: int(r.get(k) or 0), float(r.get(k) or 0), r.get(k) or "", bool(r.get(k, False)), and
-- int(r[k]) if r.get(k) else None
pub data Column : Type 0 where
  counted amount words_or_empty truth moment : Column

-- FEATURE_GROUPS
abbrev pub velocity_columns : List (String × Column)
velocity_columns =
    ("vel_count_1m", counted)
    ∷ ("vel_amount_1m", amount)
    ∷ ("vel_count_5m", counted)
    ∷ ("vel_amount_5m", amount)
    ∷ ("vel_count_1h", counted)
    ∷ ("vel_amount_1h", amount)
    ∷ ("vel_count_24h", counted)
    ∷ ("vel_amount_24h", amount)
    ∷ []

abbrev pub geo_columns : List (String × Column)
geo_columns =
    ("geo_country", words_or_empty)
    ∷ ("geo_city", words_or_empty)
    ∷ ("geo_network_class", words_or_empty)
    ∷ ("geo_confidence", amount)
    ∷ ("geo_lat", amount)
    ∷ ("geo_lon", amount)
    ∷ []

abbrev pub device_columns : List (String × Column)
device_columns =
    ("device_first_seen", moment)
    ∷ ("device_txn_count", counted)
    ∷ ("device_known_fraud", truth)
    ∷ ("prev_geo_country", words_or_empty)
    ∷ ("prev_txn_time_ms", moment)
    ∷ []

abbrev pub feature_groups : List (String × List (String × Column))
feature_groups =
    ("velocity_push_source", velocity_columns)
    ∷ ("geo_push_source", geo_columns)
    ∷ ("device_push_source", device_columns)
    ∷ []

-- A row of a group: its account and its columns. The transaction id and the time are left out.
pub record Row : Type 0 where
  pub account_id : Value
  pub fields : Record

-- The online store. `push` is none where it raises; `field` is what get_online_features gives for an
-- account and a feature.
pub record Store (S : Type 0) : Type 0 where
  pub push : String → List Row → S → Option S
  pub field : S → String → String → Value

module _ (convert : Kind → Value → Option Value) where
  abbrev pub or_zero : Kind → Value → Value
  or_zero kind v = if truthy v then v else zero_value kind

  -- col.extract(r), none where it raises
  unfoldable pub extract : String → Column → Record → Option Value
  unfolding get_value
  extract k counted r = convert integer (or_zero integer (get_value k r))
  extract k amount r = convert real (or_zero real (get_value k r))
  extract k words_or_empty r = some (or_zero words (get_value k r))
  extract k truth r = convert flag (or_zero flag (get_value k r))
  extract k moment r = let v = get_value k r in if truthy v then convert integer v else some null

  unfoldable pub extract_all : List (String × Column) → Record → Option Record
  unfolding extract
  extract_all [] r = some []
  extract_all ((k, column) ∷ columns) r = elim (extract k column r) [
    | none ↦ none
    | some v ↦ elim (extract_all columns r) [ none ↦ none | some rest ↦ some ((k, v) ∷ rest) ]
  ]

  unfoldable pub rows_of : List (String × Column) → List Record → Option (List Row)
  unfolding extract_all get_value
  rows_of columns [] = some []
  rows_of columns (r ∷ records) = elim (extract_all columns r) [
    | none ↦ none
    | some fields ↦ elim (rows_of columns records) [
      | none ↦ none
      | some rows ↦ some (record { account_id = get_value "account_id" r; fields = fields } ∷ rows)
    ]
  ]

  -- int(r.get("event_time", 0)) of every record does not raise
  unfoldable pub has_times : List Record → Bool
  unfolding get
  has_times [] = true
  has_times (r ∷ records) =
      let rest = has_times records in
      let time : Value = elim (get "event_time" r) [ none ↦ int (pos 0) | some v ↦ v ] in
      elim (convert integer time) [ none ↦ false | some _ ↦ rest ]

  module _ {S : Type 0} (store : Store S) where
    -- _push_feature_group, with its `except Exception`
    unfoldable pub push_group : String → List (String × Column) → List Record → S → S
    unfolding rows_of
    push_group source columns records s = elim (rows_of columns records) [
      | none ↦ s
      | some rows ↦ elim (store.push source rows s) [ none ↦ s | some s1 ↦ s1 ]
    ]

    unfoldable pub push_groups : List (String × List (String × Column)) → List Record → S → S
    unfolding push_group
    push_groups [] records s = s
    push_groups ((source, columns) ∷ groups) records s =
        push_groups groups records (push_group source columns records s)

    -- materialize, none where it raises
    unfoldable pub materialize : List Record → S → Option S
    unfolding push_groups has_times
    materialize [] s = some s
    materialize (r ∷ records) s =
        if has_times (r ∷ records) then some (push_groups feature_groups (r ∷ records) s) else none
