-- ===== src/Features/Materializer/RoundTrip.antt =====
-- The features of a record that is pushed come back as they are (pipelines/processing/
-- feature_materializer.py and pipelines/scoring/clients/feature_serving.py).
use fraudstream.Prelude.{
  ◌≡◌, refl, String, true, false, List, [], ◌∷◌, Option, none, some, arith, Option-cases, inl, inr,
}
use fraudstream.Prelude.Equality.{string_eq}
use fraudstream.Prelude.Dict.{get}
use fraudstream.Value.{Value, str, truthy, is_none, get_value, Record}
use fraudstream.Features
use fraudstream.Features.{
  Kind, integer, real, words, flag, features, zero_value, Fetch, returned, Count, first_values,
  all_none, any_none, fill, vector_of, get_features,
}
use fraudstream.Features.Materializer.{
  Column, counted, amount, words_or_empty, truth, moment, velocity_columns, geo_columns,
  device_columns, Row, Store, extract_all, rows_of, push_group, push_groups, has_times, materialize,
  or_zero,
}
use fraudstream.Features.Materializer.Served.{
  IsOnline, push_group-field, response, values_of, first_values-response,
}
use fraudstream.Features.Materializer.Columns.{
  kind_of, IsConversion, IsThere, extract-kind, extract_all-none, extract_all-extract,
}

module _ (convert : Kind → Value → Option Value) where
  module _ {S : Type 0} (store : Store S) where
    -- A group without the feature leaves it as it was.
    push_group-other :
        (a k source : String) (columns : List (String × Column)) (r : Record) (s : S)
        → IsOnline convert store
        → get k columns ≡ none
        → store.field (push_group convert store source columns (r ∷ []) s) a k ≡ store.field s a k
    unfolding push_group rows_of
    push_group-other a k source columns r s online h =
        elim (Option-cases (extract_all convert columns r)) [
          | inl n ↦ ground (arith, n)
          | inr (fields, e) ↦
              let row : Row = record { account_id = get_value "account_id" r; fields = fields } in
              let (s1, pushed, reads) = online source (row ∷ []) s in
              let absent : get k fields ≡ none = extract_all-none convert k columns r fields h e in
              ground (arith, e, pushed, reads a k, absent)
        ]

    module _ (a : String) (r : Record) (s : S) (online : IsOnline convert store)
        (account : get_value "account_id" r ≡ str a) (c : IsConversion convert) where
      after_velocity : S
      after_velocity = push_group convert store "velocity_push_source" velocity_columns (r ∷ []) s

      after_geo : S
      after_geo = push_group convert store "geo_push_source" geo_columns (r ∷ []) after_velocity

      after_device : S
      after_device = push_group convert store "device_push_source" device_columns (r ∷ []) after_geo

      -- The feature is there, and is converted as it is from the record.
      IsServed : S → String → Kind → Type 0
      IsServed u k kind =
          (is_none (store.field u a k) ≡ false)
          × (convert kind (or_zero convert kind (store.field u a k))
              ≡ convert kind (or_zero convert kind (get_value k r)))

      push_group-IsServed :
          (k source : String) (column : Column) (columns : List (String × Column)) (fields : Record)
          (u : S)
          → extract_all convert columns r ≡ some fields
          → get k columns ≡ some column
          → IsThere convert k column r
          → IsServed (push_group convert store source columns (r ∷ []) u) k (kind_of column)
      unfolding IsServed
      push_group-IsServed k source column columns fields u e h there =
          let (v, x) = extract_all-extract convert k column columns r fields h e in
          let shown =
            push_group-field convert store a k source column columns r fields v u online account h e
              x in
          rw shown (extract-kind convert k column r v c there x)

      other-IsServed :
          (k source : String) (columns : List (String × Column)) (kind : Kind) (u : S)
          → get k columns ≡ none
          → IsServed u k kind
          → IsServed (push_group convert store source columns (r ∷ []) u) k kind
      unfolding IsServed
      other-IsServed k source columns kind u h served =
          rw (push_group-other a k source columns r u online h) served

      AreServed : List (String × Kind) → Type 0
      AreServed [] = Unit {0}
      AreServed ((k, kind) ∷ fields) = IsServed after_device k kind × AreServed fields

      module _ (vel_fields geo_fields device_fields : Record)
          (vel : extract_all convert velocity_columns r ≡ some vel_fields)
          (geo : extract_all convert geo_columns r ≡ some geo_fields)
          (device : extract_all convert device_columns r ≡ some device_fields)
          (seen : truthy (get_value "device_first_seen" r) ≡ true)
          (previous : truthy (get_value "prev_txn_time_ms" r) ≡ true) where
        from_velocity :
            (k : String) (column : Column)
            → get k velocity_columns ≡ some column
            → get k geo_columns ≡ none
            → get k device_columns ≡ none
            → IsThere convert k column r
            → IsServed after_device k (kind_of column)
        unfolding after_velocity after_geo after_device
        from_velocity k column h g d there =
            other-IsServed k "device_push_source" device_columns (kind_of column) after_geo d (
              other-IsServed k "geo_push_source" geo_columns (kind_of column) after_velocity g (
                push_group-IsServed k "velocity_push_source" column velocity_columns vel_fields s
                  vel h there))

        from_geo :
            (k : String) (column : Column)
            → get k geo_columns ≡ some column
            → get k device_columns ≡ none
            → IsThere convert k column r
            → IsServed after_device k (kind_of column)
        unfolding after_velocity after_geo after_device
        from_geo k column h d there =
            other-IsServed k "device_push_source" device_columns (kind_of column) after_geo d (
              push_group-IsServed k "geo_push_source" column geo_columns geo_fields after_velocity
                geo h there)

        from_device :
            (k : String) (column : Column)
            → get k device_columns ≡ some column
            → IsThere convert k column r
            → IsServed after_device k (kind_of column)
        unfolding after_velocity after_geo after_device
        from_device k column h there =
            push_group-IsServed k "device_push_source" column device_columns device_fields after_geo
              device h there

        features-AreServed : AreServed features
        unfolding AreServed get
        features-AreServed = (
          from_velocity "vel_count_1m" counted refl refl refl tt,
          (
            from_velocity "vel_amount_1m" amount refl refl refl tt,
            (
              from_velocity "vel_count_5m" counted refl refl refl tt,
              (
                from_velocity "vel_amount_5m" amount refl refl refl tt,
                (
                  from_velocity "vel_count_1h" counted refl refl refl tt,
                  (
                    from_velocity "vel_amount_1h" amount refl refl refl tt,
                    (
                      from_velocity "vel_count_24h" counted refl refl refl tt,
                      (
                        from_velocity "vel_amount_24h" amount refl refl refl tt,
                        (
                          from_geo "geo_country" words_or_empty refl refl tt,
                          (
                            from_geo "geo_city" words_or_empty refl refl tt,
                            (
                              from_geo "geo_network_class" words_or_empty refl refl tt,
                              (
                                from_geo "geo_confidence" amount refl refl tt,
                                (
                                  from_device "device_first_seen" moment refl seen,
                                  (
                                    from_device "device_txn_count" counted refl tt,
                                    (
                                      from_device "device_known_fraud" truth refl tt,
                                      (
                                        from_device "prev_geo_country" words_or_empty refl tt,
                                        (from_device "prev_txn_time_ms" moment refl previous, tt),
                                      ),
                                    ),
                                  ),
                                ),
                              ),
                            ),
                          ),
                        ),
                      ),
                    ),
                  ),
                ),
              ),
            ),
          ),
        )

        none_missing :
            (fs : List (String × Kind))
            → AreServed fs
            → any_none (values_of store after_device a fs) ≡ false
        unfolding AreServed IsServed any_none
        none_missing [] served = refl
        none_missing ((k, kind) ∷ fs) served = ground (arith, served.0.0, none_missing fs served.1)

        some_there : all_none (values_of store after_device a features) ≡ false
        unfolding all_none AreServed IsServed
        some_there = ground (arith, features-AreServed.0.0)

        AreFound : List (String × Kind) → Type 0
        AreFound [] = Unit {0}
        AreFound ((k, kind) ∷ fs) =
            (get_value k (values_of store after_device a features) ≡ store.field after_device a k)
            × AreFound fs

        features-AreFound : AreFound features
        unfolding AreFound get_value get
        features-AreFound = (
          refl,
          (
            refl,
            (
              refl,
              (
                refl,
                (
                  refl,
                  (
                    refl,
                    (
                      refl,
                      (
                        refl,
                        (refl, (refl, (refl, (refl, (refl, (refl, (refl, (refl, (refl, tt))))))))),
                      ),
                    ),
                  ),
                ),
              ),
            ),
          ),
        )

        fill-served :
            (fs : List (String × Kind))
            → AreServed fs
            → AreFound fs
            → fill convert (values_of store after_device a features) fs ≡ fill convert r fs
        unfolding fill AreServed IsServed AreFound Features.field
        fill-served [] served found = refl
        fill-served ((k, kind) ∷ fs) served found =
            ground (arith, served.0.1, found.0, fill-served fs served.1 found.1)

        -- Once a record is pushed whose columns can be extracted and that has the times of the device and of
        -- the transaction before, the account is served every feature of the record, converted as it is from
        -- the record, whatever was served before, and nothing is counted.
        pub materialize-get_features :
            (out : Record)
            → has_times convert (r ∷ []) ≡ true
            → fill convert r features ≡ some out
            → (s1 : S) × (materialize convert store (r ∷ []) s ≡ some s1)
              × (get_features convert true
                    (returned (("account_id", str a ∷ []) ∷ response store s1 a features))
                    a
                  ≡ (("account_id", str a) ∷ out, []))
        unfolding materialize push_groups get_features vector_of after_device after_geo
            after_velocity
        materialize-get_features out times converts = (
          after_device,
          ground (arith, times),
          ground (
            arith,
            first_values-response convert store after_device a,
            some_there,
            none_missing features features-AreServed,
            fill-served features features-AreServed features-AreFound,
            converts,
          ),
        )
