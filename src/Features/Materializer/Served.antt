-- ===== src/Features/Materializer/Served.antt =====
-- What the scoring service is served of the features of a record that were pushed
-- (pipelines/processing/feature_materializer.py and pipelines/scoring/clients/feature_serving.py).
use fraudstream.Prelude.{
  ◌≡◌, refl, ap, ◌∙◌, String, true, false, List, [], ◌∷◌, Option, none, some, arith, Option-cases,
  Bool-cases, inl, inr, if◌then◌else◌,
}
use text.Mathlib.TextEquality.{eq_iff}
use fraudstream.Prelude.Equality.{◌==◌, string_eq}
use fraudstream.Prelude.Dict.{Dict, get}
use fraudstream.Value.{Value, null, str, truthy, equal, get_value, Record}
use fraudstream.Features.{
  Kind, features, returned, miss, zero_for, first_values, any_none, vector_of, get_features,
}
use fraudstream.Features.Materializer.{
  Column, moment, velocity_columns, geo_columns, device_columns, Row, Store, extract, extract_all,
  rows_of, push_group, push_groups, has_times, materialize,
}

-- The value of a feature of an account after rows are pushed: that of its last row with the feature,
-- else the one of before.
abbrev pub last_value : String → String → List Row → Value → Value
last_value a k [] old = old
last_value a k (row ∷ rows) old = last_value a k rows (
    if equal row.account_id (str a)
    then elim (get k row.fields) [ none ↦ old | some v ↦ v ]
    else old)

-- What a store gives for the features of an account.
abbrev pub response :
    {S : Type 0} → Store S → S → String → List (String × Kind) → Dict String (List Value)
response store s a [] = []
response store s a ((k, kind) ∷ fields) = (k, store.field s a k ∷ []) ∷ response store s a fields

abbrev pub values_of : {S : Type 0} → Store S → S → String → List (String × Kind) → Record
values_of store s a [] = []
values_of store s a ((k, kind) ∷ fields) = (k, store.field s a k) ∷ values_of store s a fields

any_none-get : (k : String) (values : Record) → get k values ≡ some null → any_none values ≡ true
unfolding get any_none
any_none-get k [] h = absurd (cc)
any_none-get k ((j, v) ∷ values) h = ground (arith, any_none-get k values)

module _ (convert : Kind → Value → Option Value) where
  extract_all-get :
      (k : String) (column : Column) (columns : List (String × Column)) (r fields : Record)
      → get k columns ≡ some column
      → extract_all convert columns r ≡ some fields
      → get k fields ≡ extract convert k column r
  unfolding get extract_all
  extract_all-get k column [] r fields h e = absurd (cc)
  extract_all-get k column ((j, other) ∷ columns) r fields h e =
      elim (Option-cases (extract convert j other r)) [
        | inl n ↦ absurd (ground (arith, n, e))
        | inr (v, n) ↦ elim (Option-cases (extract_all convert columns r)) [
          | inl m ↦ absurd (ground (arith, n, m, e))
          | inr (rest, m) ↦ elim (Bool-cases (j == k)) [
            | inl same ↦
                let names : j ≡ k = ground (arith, eq_iff j k, same) in
                ground (arith, n, m, e, h, same, names)
            | inr differs ↦
                ground (arith, n, m, e, h, differs, extract_all-get k column columns r rest)
          ]
        ]
      ]

  module _ {S : Type 0} (store : Store S) where
    -- The store takes every push, and serves the last value that was pushed.
    abbrev pub IsOnline : Type 0
    IsOnline =
        (source : String) (rows : List Row) (s : S)
        → (s1 : S) × (store.push source rows s ≡ some s1)
          × ((a k : String) → store.field s1 a k ≡ last_value a k rows (store.field s a k))

    pub push_group-field :
        (a k source : String) (column : Column) (columns : List (String × Column))
        (r fields : Record) (v : Value) (s : S)
        → IsOnline
        → get_value "account_id" r ≡ str a
        → get k columns ≡ some column
        → extract_all convert columns r ≡ some fields
        → extract convert k column r ≡ some v
        → store.field (push_group convert store source columns (r ∷ []) s) a k ≡ v
    unfolding push_group rows_of equal
    push_group-field a k source column columns r fields v s online account h e x =
        let row : Row = record { account_id = get_value "account_id" r; fields = fields } in
        let (s1, pushed, reads) = online source (row ∷ []) s in
        let found : get k fields ≡ some v = extract_all-get k column columns r fields h e ∙ x in
        ground (arith, e, pushed, reads a k, account, found, eq_iff a a)

    pub first_values-response :
        (s : S) (a : String)
        → first_values (("account_id", str a ∷ []) ∷ response store s a features)
          ≡ some (values_of store s a features)
    unfolding first_values
    first_values-response s a = refl

    get-values_of :
        (s : S) (a : String)
        → get "prev_txn_time_ms" (values_of store s a features)
          ≡ some (store.field s a "prev_txn_time_ms")
    unfolding get
    get-values_of s a = refl

    vector_of_missing :
        (a : String) (values : Record)
        → any_none values ≡ true
        → vector_of convert a values ≡ (zero_for a, miss ∷ [])
    unfolding vector_of
    vector_of_missing a values h = ground (arith, h)

    -- Once a record with no previous transaction time, as the first one of an account has, is pushed, the
    -- account is served the zero vector and counted as a miss, whatever its velocity and location are and
    -- whatever was served before.
    pub get_features_first :
        (a : String) (r fields : Record) (s : S)
        → IsOnline
        → get_value "account_id" r ≡ str a
        → has_times convert (r ∷ []) ≡ true
        → extract_all convert device_columns r ≡ some fields
        → truthy (get_value "prev_txn_time_ms" r) ≡ false
        → (s1 : S) × (materialize convert store (r ∷ []) s ≡ some s1)
          × (get_features convert true
                (returned (("account_id", str a ∷ []) ∷ response store s1 a features))
                a
              ≡ (zero_for a, miss ∷ []))
    unfolding materialize push_groups extract get_features
    get_features_first a r fields s online account times e first =
        let s1 = push_group convert store "velocity_push_source" velocity_columns (r ∷ []) s in
        let s2 = push_group convert store "geo_push_source" geo_columns (r ∷ []) s1 in
        let s3 = push_group convert store "device_push_source" device_columns (r ∷ []) s2 in
        let empty : extract convert "prev_txn_time_ms" moment r ≡ some null =
          ground (arith, first) in
        let shown : store.field s3 a "prev_txn_time_ms" ≡ null =
          push_group-field a "prev_txn_time_ms" "device_push_source" moment device_columns r fields
            null s2 online account (unfold get in refl) e empty in
        let values = values_of store s3 a features in
        let missing : any_none values ≡ true =
          any_none-get "prev_txn_time_ms" values (get-values_of s3 a ∙ ap some shown) in
        (
          s3,
          ground (arith, times),
          ground (arith, first_values-response s3 a, vector_of_missing a values missing),
        )
