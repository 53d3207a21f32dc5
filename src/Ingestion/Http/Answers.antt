-- ===== src/Ingestion/Http/Answers.antt =====
-- Which requests are published, and what the answers say of it (pipelines/ingestion/api/producer.py).
use fraudstream.Prelude.{
  ◌≡◌, ◌≢◌, ◌⊎◌, inl, inr, refl, ap, String, Bool, true, false, [], ◌∷◌, ◌++◌, Option, none, some,
  arith, Option-cases, Bool-cases, List-cases,
}
use text.Mathlib.TextEquality.{eq_iff}
use fraudstream.Prelude.Equality.{◌==◌, string_eq, nat_eq}
use fraudstream.Prelude.Results.{Result, ok, err}
use fraudstream.Prelude.Dict.{get}
use fraudstream.Value.{Value, get_value, Record}
use fraudstream.Ingestion.Pan.{MaskingConfig}
use fraudstream.Ingestion.Producer.{
  Library, Event, PublishError, invalid_pan, masking_error, other_error, Topics, build, publish,
}
use fraudstream.Ingestion.Producer.Guard.{IsClean, Sent, publish-Sent, Returns, publish-Returns}
use fraudstream.Ingestion.Http.Validity.{
  AreGiven, missing_of-AreGiven, AreGiven-missing_of, IsValid, validate-AreInRange, amount_given,
  time_errors_given, errors_of_time,
}
use fraudstream.Ingestion.Http.{
  Amount, overflows, Body, malformed, undecodable, other, object, Answer, not_found, invalid_json,
  channel_given, missing, invalid, accepted, bad_pan, masking_failed, internal_error, unanswered,
  Validation, valid, raises, invalid_fields, required, missing_of, amount_errors,
  validate_field_values, answer_of, publish_and_answer, validate_and_publish, handle_body, do_post,
}

module _ (lib : Library) (to_amount : Value → Amount) where
  module _ (cfg : MaskingConfig) (channel : String) (takes sends : Bool) where
    -- A request for the right path with an object that has no channel and is valid.
    abbrev pub IsRequest : String → Option Body → Record → Type 0
    IsRequest path body payload =
        (path ≡ "/v1/transactions")
        × (body ≡ some (object payload))
        × (get "channel" payload ≡ none)
        × IsValid lib to_amount payload

    -- The answers to what is not published, none at all included.
    abbrev pub is_refusal : Answer → Bool
    is_refusal (accepted _) = false
    is_refusal (bad_pan _) = false
    is_refusal masking_failed = false
    is_refusal internal_error = false
    is_refusal _ = true

    Decided : String → Option Body → Topics → Answer × Topics → Type 0
    Decided path body topics r =
        ((is_refusal r.0 ≡ true) × (r.1 ≡ topics))
        ⊎ ((payload : Record) × IsRequest path body payload
            × (r ≡ publish_and_answer lib to_amount cfg channel takes sends payload topics))

    validate_and_publish-cases :
        (payload : Record) (topics : Topics)
        → let r = validate_and_publish lib to_amount cfg channel takes sends payload topics in
          ((is_refusal r.0 ≡ true) × (r.1 ≡ topics))
          ⊎ (IsValid lib to_amount payload
              × (r ≡ publish_and_answer lib to_amount cfg channel takes sends payload topics))
    unfolding validate_and_publish
    validate_and_publish-cases payload topics = elim (List-cases (missing_of required payload)) [
      | inr (f, fields, e) ↦ inl (ground (arith, e))
      | inl all ↦ judged all (validate_field_values lib to_amount payload) refl
    ]
      where
        judged :
            missing_of required payload ≡ []
            → (v : Validation) → validate_field_values lib to_amount payload ≡ v
            → let r = validate_and_publish lib to_amount cfg channel takes sends payload topics in
              ((is_refusal r.0 ≡ true) × (r.1 ≡ topics))
              ⊎ (IsValid lib to_amount payload
                  × (r ≡ publish_and_answer lib to_amount cfg channel takes sends payload topics))
        judged all valid e =
            let given = missing_of-AreGiven required payload all in
            inr ((given, validate-AreInRange lib to_amount payload given e), ground (arith, all, e))
        judged all raises e = inl (ground (arith, all, e))
        judged all (invalid_fields errors) e = inl (ground (arith, all, e))

    handle_body-Decided :
        (b : Body) (topics : Topics)
        → Decided "/v1/transactions"
            (some b)
            topics
            (handle_body lib to_amount cfg channel takes sends b topics)
    unfolding handle_body Decided
    handle_body-Decided malformed topics = inl (refl, refl)
    handle_body-Decided undecodable topics = inl (refl, refl)
    handle_body-Decided (other none) topics = inl (refl, refl)
    handle_body-Decided (other (some true)) topics = inl (refl, refl)
    handle_body-Decided (other (some false)) topics = inl (refl, refl)
    handle_body-Decided (object payload) topics = elim (Option-cases (get "channel" payload)) [
      | inr (v, e) ↦ inl (ground (arith, e))
      | inl n ↦ elim (validate_and_publish-cases payload topics) [
        | inl refused ↦ inl (ground (arith, n, refused))
        | inr (v, e) ↦ inr (payload, (refl, refl, n, v), ground (arith, n, e))
      ]
    ]

    do_post-Decided :
        (path : String) (body : Option Body) (topics : Topics)
        → Decided path body topics (do_post lib to_amount cfg channel takes sends path body topics)
    unfolding do_post Decided
    do_post-Decided path none topics = inl (ground arith)
    do_post-Decided path (some b) topics = elim (Bool-cases (path == "/v1/transactions")) [
      | inr other_path ↦ inl (ground (arith, other_path))
      | inl right ↦
          let same : path ≡ "/v1/transactions" =
            ground (arith, eq_iff path "/v1/transactions", right) in
          elim (handle_body-Decided b topics) [
            | inl refused ↦ inl (ground (arith, right, refused))
            | inr (payload, r, e) ↦ inr (payload, (same, r.1, r.2, r.3), ground (arith, right, e))
          ]
    ]

    abbrev pub is_accepted : Answer → Bool
    is_accepted (accepted _) = true
    is_accepted _ = false

    -- The answer accepts the request and names its transaction, and one event went out: the one that is
    -- built of the request, which is clean.
    abbrev pub IsAccepted : Record → Topics → Answer × Topics → Type 0
    IsAccepted payload topics r =
        (r.0 ≡ accepted (get_value "transaction_id" payload))
        × ((e : Event) × (build lib cfg channel payload ≡ ok e)
            × IsClean lib cfg channel e
            × (r.1 ≡ record topics { produced = topics.produced ++ e ∷ [] }))

    answered :
        (payload : Record) (topics : Topics) (p : Result PublishError Event × Topics)
        → Returns lib cfg channel payload topics p
        → let r : Answer × Topics =
            (answer_of lib to_amount cfg channel takes sends payload p.0, p.1) in
          ((is_accepted r.0 ≡ false) × (r.1.produced ≡ topics.produced))
          ⊎ IsAccepted payload topics r
    answered payload topics (ok e, t) h = inr (refl, (e, h.0, h.1, h.2))
    answered payload topics (err (invalid_pan e), t) h = inl (refl, h)
    answered payload topics (err (masking_error m), t) h = inl (refl, h)
    answered payload topics (err other_error, t) h = inl (refl, h)

    refused-accepted : (a : Answer) → is_refusal a ≡ true → is_accepted a ≡ false
    refused-accepted (accepted v) h = absurd (cc)
    refused-accepted not_found h = refl
    refused-accepted invalid_json h = refl
    refused-accepted channel_given h = refl
    refused-accepted (missing f) h = refl
    refused-accepted (invalid e) h = refl
    refused-accepted (bad_pan e) h = refl
    refused-accepted masking_failed h = refl
    refused-accepted internal_error h = refl
    refused-accepted unanswered h = refl

    -- Whatever the request is: it is not accepted and no event is produced, or it is a valid request, the
    -- answer accepts it with its transaction id, and exactly one event was produced: the one built of the
    -- request, which has no field card_number and no value that is a text of 15 to 19 digits.
    pub do_post_outcome :
        (path : String) (body : Option Body) (topics : Topics)
        → let r = do_post lib to_amount cfg channel takes sends path body topics in
          ((is_accepted r.0 ≡ false) × (r.1.produced ≡ topics.produced))
          ⊎ ((payload : Record) × IsRequest path body payload × IsAccepted payload topics r)
    unfolding Decided publish_and_answer
    do_post_outcome path body topics = elim (do_post-Decided path body topics) [
      | inl refused ↦ inl (refused-accepted _ refused.0, ap (λ (t : Topics). t.produced) refused.1)
      | inr (payload, r, e) ↦
          elim (answered payload topics (publish lib cfg channel takes sends payload topics)
            (publish-Returns lib cfg channel takes sends payload topics)) [
              | inl failed ↦ inl (ground (arith, e, failed))
              | inr done ↦
                  let (a, (event, built, clean, sent)) = done in
                  inr (
                    payload,
                    r,
                    (ground (arith, e, a), (event, built, clean, ground (arith, e, sent))),
                  )
            ]
    ]

    -- Nothing is written to the dead-letter topic either unless the request is valid.
    pub do_post-Sent :
        (path : String) (body : Option Body) (topics : Topics)
        → let r = do_post lib to_amount cfg channel takes sends path body topics in
          (r.1 ≡ topics)
          ⊎ ((payload : Record) × IsRequest path body payload
              × Sent lib cfg channel payload topics r.1)
    unfolding Decided publish_and_answer
    do_post-Sent path body topics = elim (do_post-Decided path body topics) [
      | inl refused ↦ inl refused.1
      | inr (payload, r, e) ↦
          inr (payload, r, rw e (publish-Sent lib cfg channel takes sends payload topics))
    ]

    -- A payload with no channel that is valid but for an event time that `int` refuses is not answered:
    -- the exception leaves the handler, and nothing is sent.
    pub do_post_unanswered :
        (payload : Record) (topics : Topics)
        → get "channel" payload ≡ none
        → AreGiven required payload
        → to_amount (get_value "amount" payload) ≢ overflows
        → lib.to_int (get_value "event_time" payload) ≡ none
        → do_post lib to_amount cfg channel takes sends "/v1/transactions"
            (some (object payload))
            topics
          ≡ (unanswered, topics)
    unfolding do_post handle_body validate_and_publish validate_field_values amount_errors
        errors_of_time
    do_post_unanswered payload topics h given fits bad = ground (
      arith,
      h,
      bad,
      eq_iff "/v1/transactions" "/v1/transactions",
      AreGiven-missing_of required payload given,
      amount_given lib to_amount payload given.1.1.1.0,
      time_errors_given lib to_amount (get_value "event_time" payload) given.1.1.1.1.1.0,
    )
