-- ===== src/Features/Fallback.antt =====
-- When a feature vector is not the zero vector (pipelines/scoring/clients/feature_serving.py).
use fraudstream.Prelude.{
  ◌≡◌, ◌⊎◌, inl, inr, refl, ap, ◌∙◌, String, true, false, List, [], ◌∷◌, Option, some, arith,
  Option-cases, Bool-cases,
}
use fraudstream.Prelude.Dict.{Dict}
use fraudstream.Value.{Value, str, Record}
use fraudstream.Features.{
  Kind, features, zero_for, Fetch, returned, timed_out, raised, Count, miss, fallback_timeout,
  fallback_unavailable, first_values, all_none, any_none, fill, vector_of, get_features,
}

module _ (convert : Kind → Value → Option Value) where
  -- The values that the store gave, all of them, converted.
  pub record IsServed (fetch : Fetch) (account_id : String) (vector : Record) : Type 0 where
    pub raw : Dict String (List Value)
    pub values : Record
    pub fields : Record
    pub in_time : fetch ≡ returned raw
    pub first : first_values raw ≡ some values
    pub all_there : any_none values ≡ false
    pub converted : fill convert values features ≡ some fields
    pub filled : vector ≡ ("account_id", str account_id) ∷ fields

  IsDefault : Record × List Count → String → Type 0
  IsDefault r account_id = (r.0 ≡ zero_for account_id) × ((c : Count) × (r.1 ≡ c ∷ []))

  IsFilled : Record → String → Record × List Count → Type 0
  IsFilled values account_id r =
      (any_none values ≡ false)
      × ((fields : Record) × (fill convert values features ≡ some fields)
          × (r ≡ (("account_id", str account_id) ∷ fields, [])))

  vector_of_cases :
      (account_id : String) (values : Record)
      → let r = vector_of convert account_id values in
        IsDefault r account_id ⊎ IsFilled values account_id r
  unfolding vector_of IsDefault IsFilled
  vector_of_cases account_id values = elim (Bool-cases (all_none values)) [
    | inl a ↦ inl (ground (arith, a), (miss, ground (arith, a)))
    | inr a ↦ elim (Bool-cases (any_none values)) [
      | inl b ↦ inl (ground (arith, a, b), (miss, ground (arith, a, b)))
      | inr b ↦ elim (Option-cases (fill convert values features)) [
        | inl n ↦ inl (ground (arith, a, b, n), (fallback_unavailable, ground (arith, a, b, n)))
        | inr (fields, n) ↦ inr (b, (fields, n, ground (arith, a, b, n)))
      ]
    ]
  ]

  -- An open client gives the zero vector of the account and counts one miss or fallback, or it counts
  -- none and gives the converted values of the store, which answered in time with no value missing.
  pub get_features-IsServed :
      (fetch : Fetch) (account_id : String)
      → let r = get_features convert true fetch account_id in
        ((r.0 ≡ zero_for account_id) × ((c : Count) × (r.1 ≡ c ∷ [])))
        ⊎ (IsServed fetch account_id r.0 × (r.1 ≡ []))
  unfolding get_features IsDefault IsFilled
  get_features-IsServed timed_out account_id = inl (refl, (fallback_timeout, refl))
  get_features-IsServed raised account_id = inl (refl, (fallback_unavailable, refl))
  get_features-IsServed (returned raw) account_id = elim (Option-cases (first_values raw)) [
    | inl n ↦ inl (ground (arith, n), (fallback_unavailable, ground (arith, n)))
    | inr (values, n) ↦
        let same : get_features convert true (returned raw) account_id
            ≡ vector_of convert account_id values =
          ground (arith, n) in
        elim (vector_of_cases account_id values) [
          | inl d ↦ inl (
            ap (λ (r : Record × List Count). r.0) same ∙ d.0,
            (d.1.0, ap (λ (r : Record × List Count). r.1) same ∙ d.1.1),
          )
          | inr f ↦
              let whole = same ∙ f.1.2 in
              inr (
                record {
                  raw = raw;
                  values = values;
                  fields = f.1.0;
                  in_time = refl;
                  first = n;
                  all_there = f.0;
                  converted = f.1.1;
                  filled = ap (λ (r : Record × List Count). r.0) whole;
                },
                ap (λ (r : Record × List Count). r.1) whole,
              )
        ]
  ]
