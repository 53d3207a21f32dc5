-- ===== src/Ingestion/Http/Validity.antt =====
-- Which payloads pass the validation (pipelines/ingestion/api/producer.py).
use fraudstream.Prelude.{
  ◌≤◌, ◌≡◌, inl, inr, refl, String, true, List, [], ◌∷◌, ◌++◌, Option, none, some, arith, length,
  if◌then◌else◌, Option-cases,
}
use fraudstream.Prelude.Int.{ℤ, ◌-ℤ◌}
use fraudstream.Prelude.Equality.{string_eq, nat_eq}
use fraudstream.Prelude.Dict.{get}
use fraudstream.Value.{Value, null, bool, num, str, truthy, get_value, Record, codes}
use fraudstream.Ingestion.Producer.{Library}
use fraudstream.Ingestion.Http.{
  Amount, positive, FieldError, clock_skew, valid, required, missing_of, is_currency, magnitude,
  is_skewed, amount_errors, time_errors, amount_or_zero, text_errors, verdict,
  validate_field_values,
}

-- Every one of the fields is there with a value that is true.
abbrev pub AreGiven : List String → Record → Type 0
AreGiven [] payload = Unit {0}
AreGiven (f ∷ fields) payload = (truthy (get_value f payload) ≡ true) × AreGiven fields payload

pub missing_of-AreGiven :
    (fields : List String) (payload : Record)
    → missing_of fields payload ≡ []
    → AreGiven fields payload
unfolding missing_of
missing_of-AreGiven [] payload h = tt
missing_of-AreGiven (f ∷ fields) payload h = ground (arith, h, missing_of-AreGiven fields payload)

pub AreGiven-missing_of :
    (fields : List String) (payload : Record)
    → AreGiven fields payload
    → missing_of fields payload ≡ []
unfolding missing_of
AreGiven-missing_of [] payload h = refl
AreGiven-missing_of (f ∷ fields) payload h = ground (arith, h, AreGiven-missing_of fields payload)

module _ (lib : Library) (to_amount : Value → Amount) where
  -- An amount above 0, a currency of three characters and a time within five minutes of the clock.
  abbrev pub AreInRange : Record → Type 0
  AreInRange payload =
      (to_amount (get_value "amount" payload) ≡ positive)
      × ((s : String) × (get "currency" payload ≡ some (str s)) × (length (codes s) ≡ 3))
      × ((t : ℤ) × (lib.to_int (get_value "event_time" payload) ≡ some t)
          × (magnitude (lib.now_ms -ℤ t) ≤ 300000))

  is_currency-IsText :
      (v : Option Value)
      → is_currency v ≡ true
      → (s : String) × (v ≡ some (str s)) × (length (codes s) ≡ 3)
  unfolding is_currency
  is_currency-IsText (some (str s)) h = (s, refl, ground (arith, h))
  is_currency-IsText (some (num _)) h = absurd (cc)
  is_currency-IsText (some (bool _)) h = absurd (cc)
  is_currency-IsText (some null) h = absurd (cc)
  is_currency-IsText none h = absurd (cc)

  -- What time_errors gives on a value that is not null.
  unfoldable pub errors_of_time : Option ℤ → Option (List FieldError)
  errors_of_time none = none
  errors_of_time (some t) = some (if is_skewed lib.now_ms t then clock_skew ∷ [] else [])

  pub time_errors_given :
      (v : Value) → truthy v ≡ true → time_errors lib to_amount v ≡ errors_of_time (lib.to_int v)
  unfolding time_errors errors_of_time
  time_errors_given null h = absurd (cc)
  time_errors_given (bool b) h = ground arith
  time_errors_given (num z) h = ground arith
  time_errors_given (str s) h = ground arith

  errors_of_time-none :
      (o : Option ℤ)
      → errors_of_time o ≡ some []
      → (t : ℤ) × (o ≡ some t) × (magnitude (lib.now_ms -ℤ t) ≤ 300000)
  unfolding errors_of_time is_skewed
  errors_of_time-none none h = absurd (cc)
  errors_of_time-none (some t) h = (t, refl, ground (arith, h))

  verdict-valid :
      (xs ys zs : List FieldError)
      → verdict lib to_amount (xs ++ (ys ++ zs)) ≡ valid
      → (xs ≡ []) × (ys ≡ []) × (zs ≡ [])
  verdict-valid [] [] [] h = (refl, refl, refl)
  verdict-valid [] [] (z ∷ zs) h = absurd (cc)
  verdict-valid [] (y ∷ ys) zs h = absurd (cc)
  verdict-valid (x ∷ xs) ys zs h = absurd (cc)

  text_errors-none :
      (payload : Record)
      → text_errors lib to_amount payload ≡ []
      → is_currency (get "currency" payload) ≡ true
  unfolding text_errors
  text_errors-none payload h = ground (arith, h)

  amount_errors-none :
      (v : Value) → amount_errors lib to_amount v ≡ some [] → to_amount v ≡ positive
  unfolding amount_errors
  amount_errors-none v h = ground (arith, h)

  pub amount_given :
      (payload : Record)
      → truthy (get_value "amount" payload) ≡ true
      → amount_or_zero lib to_amount payload ≡ get_value "amount" payload
  unfolding get_value
  amount_given payload h = ground (arith, h)

  pub validate-AreInRange :
      (payload : Record)
      → AreGiven required payload
      → validate_field_values lib to_amount payload ≡ valid
      → AreInRange payload
  unfolding validate_field_values
  validate-AreInRange payload given h =
      elim (Option-cases (amount_errors lib to_amount (amount_or_zero lib to_amount payload))) [
        | inl n ↦ absurd (ground (arith, h, n))
        | inr (amount, a) ↦
            elim (Option-cases (time_errors lib to_amount (get_value "event_time" payload))) [
              | inl n ↦ absurd (ground (arith, h, n, a))
              | inr (time, t) ↦
                  let value = get_value "amount" payload in
                  let when = get_value "event_time" payload in
                  let all : verdict lib to_amount
                        (amount ++ (text_errors lib to_amount payload ++ time))
                      ≡ valid =
                    ground (arith, h, a, t) in
                  let none_of = verdict-valid amount (text_errors lib to_amount payload) time all in
                  let right : to_amount value ≡ positive =
                    amount_errors-none value
                      (ground (arith, a, none_of, amount_given payload given.1.1.1.0)) in
                  let on_time : errors_of_time (lib.to_int when) ≡ some [] =
                    ground (arith, t, none_of, time_errors_given when given.1.1.1.1.1.0) in
                  (
                    right,
                    is_currency-IsText (get "currency" payload)
                        (text_errors-none payload none_of.1),
                    errors_of_time-none (lib.to_int when) on_time,
                  )
            ]
      ]

  -- A payload with all fields that are required, and in range.
  abbrev pub IsValid : Record → Type 0
  IsValid payload = AreGiven required payload × AreInRange payload

  pub IsValid-validate :
      (payload : Record) → IsValid payload → validate_field_values lib to_amount payload ≡ valid
  unfolding validate_field_values amount_errors text_errors is_currency errors_of_time is_skewed
  IsValid-validate payload v =
      let when = get_value "event_time" payload in
      ground (arith, v.1, amount_given payload v.0.1.1.1.0, time_errors_given when v.0.1.1.1.1.1.0)
