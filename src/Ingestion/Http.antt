-- ===== src/Ingestion/Http.antt =====
-- pipelines/ingestion/api/producer.py: the HTTP handler _RequestHandler.do_POST with the validation of
-- a payload. What json makes of a body is a parameter, and so are `float` and `int`. Values of a payload that
-- are lists or objects are left out.
pub mod Validity
pub mod Answers
use fraudstream.Prelude.{
  ℕ, String, Bool, true, false, not, ◌||◌, List, [], ◌∷◌, ◌++◌, Option, none, some, ltb, ◌+◌,
  length, if◌then◌else◌,
}
use fraudstream.Prelude.Int.{ℤ, pos, negsuc, ltb_ℤ, ◌-ℤ◌}
use fraudstream.Prelude.Results.{Result, ok, err}
use fraudstream.Prelude.Equality.{◌==◌, string_eq, nat_eq}
use fraudstream.Prelude.Dict.{get}
use fraudstream.Value.{Value, null, bool, num, str, int, truthy, get_value, Record, codes}
use fraudstream.Ingestion.Pan.{PanError, MaskingConfig}
use fraudstream.Ingestion.Producer.{
  Library, Event, PublishError, invalid_pan, masking_error, other_error, Topics, has_key, publish,
}

-- float(v): it raises a TypeError or a ValueError, raises another exception, is not above 0, or is
-- (nan included).
pub data Amount : Type 0 where
  unreadable overflows not_positive positive : Amount

-- What json.loads makes of the body of a request.
pub data Body : Type 0 where
  -- it raises JSONDecodeError, or another exception
  malformed undecodable : Body
  -- no object: whether `"channel" in payload` holds, none where that raises
  other : Option Bool → Body
  object : Record → Body

pub data FieldError : Type 0 where
  amount_not_positive amount_not_numeric bad_currency empty_api_key empty_scope clock_skew :
      FieldError

-- The answers; `unanswered` is an exception that leaves the handler.
pub data Answer : Type 0 where
  not_found invalid_json channel_given : Answer
  missing : List String → Answer
  invalid : List FieldError → Answer
  accepted : Value → Answer
  bad_pan : PanError → Answer
  masking_failed internal_error unanswered : Answer

pub data Validation : Type 0 where
  valid raises : Validation
  invalid_fields : List FieldError → Validation

abbrev pub status : Answer → Option ℕ
status not_found = some 404
status invalid_json = some 400
status channel_given = some 400
status (missing _) = some 400
status (invalid _) = some 400
status (accepted _) = some 200
status (bad_pan _) = some 400
status masking_failed = some 500
status internal_error = some 500
status unanswered = none

abbrev pub required : List String
required =
    "transaction_id" ∷ "account_id" ∷ "merchant_id" ∷ "amount" ∷ "currency" ∷ "event_time"
    ∷ "card_number" ∷ "caller_ip" ∷ "api_key_id" ∷ "oauth_scope" ∷ []

-- [f for f in required if not payload.get(f)]
unfoldable pub missing_of : List String → Record → List String
unfolding get_value
missing_of [] payload = []
missing_of (f ∷ fields) payload =
    let rest = missing_of fields payload in if truthy (get_value f payload) then rest else f ∷ rest

-- payload.get("currency", "") is a text of three characters
unfoldable pub is_currency : Option Value → Bool
is_currency none = false
is_currency (some (str s)) = length (codes s) == 3
is_currency (some (num _)) = false
is_currency (some (bool _)) = false
is_currency (some null) = false

abbrev pub magnitude : ℤ → ℕ
magnitude (pos n) = n
magnitude (negsuc n) = n + 1

-- |now_ms - event_time| > 5 * 60 * 1000
unfoldable pub is_skewed : ℤ → ℤ → Bool
unfolding ◌-ℤ◌
is_skewed now_ms time = ltb 300000 (magnitude (now_ms -ℤ time))

module _ (lib : Library) (to_amount : Value → Amount) where
  -- `none` where float or int raises an exception that is not caught
  unfoldable pub amount_errors : Value → Option (List FieldError)
  amount_errors v = elim (to_amount v) [
    | unreadable ↦ some (amount_not_numeric ∷ [])
    | overflows ↦ none
    | not_positive ↦ some (amount_not_positive ∷ [])
    | positive ↦ some []
  ]

  unfoldable pub time_errors : Value → Option (List FieldError)
  unfolding is_skewed
  time_errors null = some []
  time_errors v = elim (lib.to_int v) [
    | none ↦ none
    | some t ↦ some (if is_skewed lib.now_ms t then clock_skew ∷ [] else [])
  ]

  -- payload.get("amount", 0)
  abbrev pub amount_or_zero : Record → Value
  amount_or_zero payload = elim (get "amount" payload) [ none ↦ int (pos 0) | some v ↦ v ]

  unfoldable pub text_errors : Record → List FieldError
  unfolding get get_value is_currency
  text_errors payload =
      (if is_currency (get "currency" payload) then [] else bad_currency ∷ [])
      ++ ((if truthy (get_value "api_key_id" payload) then [] else empty_api_key ∷ [])
          ++ (if truthy (get_value "oauth_scope" payload) then [] else empty_scope ∷ []))

  abbrev pub verdict : List FieldError → Validation
  verdict [] = valid
  verdict (e ∷ errors) = invalid_fields (e ∷ errors)

  -- validate_field_values
  unfoldable pub validate_field_values : Record → Validation
  unfolding get get_value amount_errors time_errors text_errors
  validate_field_values payload = elim (amount_errors (amount_or_zero payload)) [
    | none ↦ raises
    | some amount ↦ elim (time_errors (get_value "event_time" payload)) [
      | none ↦ raises
      | some time ↦ verdict (amount ++ (text_errors payload ++ time))
    ]
  ]

  module _ (cfg : MaskingConfig) (channel : String) (takes sends : Bool) where
    abbrev pub answer_of : Record → Result PublishError Event → Answer
    answer_of payload (ok event) = accepted (get_value "transaction_id" payload)
    answer_of payload (err (invalid_pan e)) = bad_pan e
    answer_of payload (err (masking_error m)) = masking_failed
    answer_of payload (err other_error) = internal_error

    unfoldable pub publish_and_answer : Record → Topics → Answer × Topics
    unfolding publish
    publish_and_answer payload topics =
        let (result, topics1) = publish lib cfg channel takes sends payload topics in
        (answer_of payload result, topics1)

    unfoldable pub validate_and_publish : Record → Topics → Answer × Topics
    unfolding missing_of validate_field_values publish_and_answer
    validate_and_publish payload topics = elim (missing_of required payload) [
      | f ∷ fields ↦ (missing (f ∷ fields), topics)
      | [] ↦ elim (validate_field_values payload) [
        | raises ↦ (unanswered, topics)
        | invalid_fields errors ↦ (invalid errors, topics)
        | valid ↦ publish_and_answer payload topics
      ]
    ]

    -- do_POST, from the body on
    unfoldable pub handle_body : Body → Topics → Answer × Topics
    unfolding get validate_and_publish
    handle_body malformed topics = (invalid_json, topics)
    handle_body undecodable topics = (unanswered, topics)
    handle_body (other none) topics = (unanswered, topics)
    handle_body (other (some true)) topics = (channel_given, topics)
    handle_body (other (some false)) topics = (unanswered, topics)
    handle_body (object payload) topics = elim (get "channel" payload) [
      | some _ ↦ (channel_given, topics)
      | none ↦ validate_and_publish payload topics
    ]

    -- do_POST; the body is none where the length or the read of it raises
    unfoldable pub do_post : String → Option Body → Topics → Answer × Topics
    unfolding handle_body
    do_post path body topics =
        if path == "/v1/transactions"
        then elim body [ none ↦ (unanswered, topics) | some b ↦ handle_body b topics ]
        else (not_found, topics)
