-- ===== src/Ingestion/Producer/Guard.antt =====
-- No card number reaches the transactions topic, and what the DLQ gets
-- (pipelines/ingestion/api/producer.py).
use fraudstream.Prelude.{
  ◌≡◌, refl, String, Bool, true, false, [], ◌∷◌, ◌++◌, none, arith, if◌then◌else◌,
}
use fraudstream.Prelude.Results.{Result, ok, err}
use fraudstream.Prelude.Equality.{◌==◌, string_eq}
use fraudstream.Prelude.Dict.{get, remove, get-remove}
use fraudstream.Value.{Record}
use fraudstream.Ingestion.Pan.{MaskingConfig}
use fraudstream.Ingestion.Producer.Quoted.{Quotes, no_value, said_of, build-Quotes}
use fraudstream.Ingestion.Producer.{
  Library, Event, leak_found, quoted, PublishError, invalid_pan, masking_error, other_error,
  DlqMessage, Topics, build, any_leak, has_key, assert_no_pii_leak, safe_payload, handle_error,
  catch_error, produce, guard_and_produce, publish,
}

module _ (lib : Library) (cfg : MaskingConfig) (channel : String) where
  -- An event with no card_number and no value that is a text of 15 to 19 digits.
  abbrev pub IsClean : Event → Type 0
  IsClean event =
      (has_key lib cfg channel "card_number" event ≡ false)
      × (any_leak lib cfg channel event ≡ false)

  -- What a call of `publish` sends: nothing, one event that is clean, or one DLQ message, whose payload
  -- is the request's without the fields of the card number and the address.
  pub data Sent (raw : Record) (old : Topics) : Topics → Type 0 where
    nothing : Sent raw old old
    accepted :
        (e : Event) → IsClean e → Sent raw old (record old { produced = old.produced ++ e ∷ [] })
    rejected :
        (m : DlqMessage)
        → m.payload ≡ safe_payload lib cfg channel raw
        → Quotes lib cfg channel raw m.error_message
        → Sent raw old (record old { dlq = old.dlq ++ m ∷ [] })

  handle_error-Sent :
      (sends : Bool) (e : PublishError) (raw : Record) (masked : Bool) (s : Topics)
      → Quotes lib cfg channel raw (quoted e)
      → Sent raw s (handle_error lib cfg channel sends e raw masked s)
  unfolding handle_error
  handle_error-Sent true e raw masked s said =
      rejected
        (record {
          payload = safe_payload lib cfg channel raw;
          error = e;
          error_message = quoted e;
          masking_applied = masked;
        })
        refl said
  handle_error-Sent false e raw masked s said = nothing

  catch_error-Sent :
      (sends : Bool) (e : PublishError) (raw : Record) (masked : Bool) (s : Topics)
      → Quotes lib cfg channel raw (quoted e)
      → Sent raw s (catch_error lib cfg channel sends e raw masked s).1
  unfolding catch_error
  catch_error-Sent sends other_error raw masked s said = nothing
  catch_error-Sent sends (masking_error m) raw masked s said =
      handle_error-Sent sends (masking_error m) raw masked s said
  catch_error-Sent sends (invalid_pan e) raw masked s said =
      handle_error-Sent sends (invalid_pan e) raw masked s said

  assert_no_pii_leak-IsClean :
      (event guarded : Event)
      → assert_no_pii_leak lib cfg channel event ≡ ok guarded
      → IsClean guarded
  unfolding assert_no_pii_leak
  assert_no_pii_leak-IsClean event guarded h = ground arith

  assert_no_pii_leak-quoted :
      (event : Event) (e : PublishError)
      → assert_no_pii_leak lib cfg channel event ≡ err e
      → masking_error leak_found ≡ e
  unfolding assert_no_pii_leak
  assert_no_pii_leak-quoted event e h = ground arith

  produce-Sent :
      (takes sends : Bool) (raw : Record) (s : Topics) (g : Result PublishError Event)
      → ((guarded : Event) → g ≡ ok guarded → IsClean guarded)
      → ((e : PublishError) → g ≡ err e → Quotes lib cfg channel raw (quoted e))
      → Sent raw s (produce lib cfg channel takes sends raw s g).1
  unfolding produce
  produce-Sent takes sends raw s (err e) clean said =
      catch_error-Sent sends e raw true s (said e refl)
  produce-Sent true sends raw s (ok event) clean said = accepted event (clean event refl)
  produce-Sent false sends raw s (ok event) clean said = nothing

  guard_and_produce-Sent :
      (takes sends : Bool) (raw : Record) (s : Topics) (built : Result PublishError Event)
      → build lib cfg channel raw ≡ built
      → Sent raw s (guard_and_produce lib cfg channel takes sends raw s built).1
  unfolding guard_and_produce quoted
  guard_and_produce-Sent takes sends raw s (err e) h =
      catch_error-Sent sends e raw false s (build-Quotes lib cfg channel raw e h)
  guard_and_produce-Sent takes sends raw s (ok event) h =
      produce-Sent takes sends raw s (assert_no_pii_leak lib cfg channel event)
        (assert_no_pii_leak-IsClean event)
        (λ e k. said_of lib cfg channel {raw = raw} (assert_no_pii_leak-quoted event e k) no_value)

  pub publish-Sent :
      (takes sends : Bool) (raw : Record) (s : Topics)
      → Sent raw s (publish lib cfg channel takes sends raw s).1
  unfolding publish
  publish-Sent takes sends raw s =
      guard_and_produce-Sent takes sends raw s (build lib cfg channel raw) refl

  -- A call that returns has produced the event that it gives, which is the one built of the request and
  -- is clean, and nothing else, and one that raises has produced none.
  abbrev pub Returns : Record → Topics → Result PublishError Event × Topics → Type 0
  Returns raw s (ok e, t) =
      (build lib cfg channel raw ≡ ok e)
      × IsClean e
      × (t ≡ record s { produced = s.produced ++ e ∷ [] })
  Returns raw s (err e, t) = t.produced ≡ s.produced

  assert_no_pii_leak-same :
      (event guarded : Event)
      → assert_no_pii_leak lib cfg channel event ≡ ok guarded
      → event ≡ guarded
  unfolding assert_no_pii_leak
  assert_no_pii_leak-same event guarded h = ground arith

  catch_error-Returns :
      (sends : Bool) (e : PublishError) (raw : Record) (masked : Bool) (s : Topics)
      → Returns raw s (catch_error lib cfg channel sends e raw masked s)
  unfolding catch_error handle_error
  catch_error-Returns sends other_error raw masked s = refl
  catch_error-Returns true (masking_error m) raw masked s = refl
  catch_error-Returns false (masking_error m) raw masked s = refl
  catch_error-Returns true (invalid_pan e) raw masked s = refl
  catch_error-Returns false (invalid_pan e) raw masked s = refl

  produce-Returns :
      (takes sends : Bool) (raw : Record) (s : Topics) (g : Result PublishError Event)
      → ((guarded : Event)
          → g ≡ ok guarded
          → (build lib cfg channel raw ≡ ok guarded) × IsClean guarded)
      → Returns raw s (produce lib cfg channel takes sends raw s g)
  unfolding produce
  produce-Returns takes sends raw s (err e) clean = catch_error-Returns sends e raw true s
  produce-Returns true sends raw s (ok event) clean =
      ((clean event refl).0, (clean event refl).1, refl)
  produce-Returns false sends raw s (ok event) clean = refl

  guard_and_produce-Returns :
      (takes sends : Bool) (raw : Record) (s : Topics) (built : Result PublishError Event)
      → build lib cfg channel raw ≡ built
      → Returns raw s (guard_and_produce lib cfg channel takes sends raw s built)
  unfolding guard_and_produce
  guard_and_produce-Returns takes sends raw s (err e) h = catch_error-Returns sends e raw false s
  guard_and_produce-Returns takes sends raw s (ok event) h =
      produce-Returns takes sends raw s (assert_no_pii_leak lib cfg channel event) (λ guarded k. (
        ground (arith, h, assert_no_pii_leak-same event guarded k),
        assert_no_pii_leak-IsClean event guarded k,
      ))

  pub publish-Returns :
      (takes sends : Bool) (raw : Record) (s : Topics)
      → Returns raw s (publish lib cfg channel takes sends raw s)
  unfolding publish
  publish-Returns takes sends raw s =
      guard_and_produce-Returns takes sends raw s (build lib cfg channel raw) refl

  -- The DLQ's payload has neither the card number nor the address, and every other field of the
  -- request as it came.
  pub get-safe_payload :
      (k : String) (raw : Record)
      → get k (safe_payload lib cfg channel raw)
        ≡ (if "caller_ip" == k then none else if "card_number" == k then none else get k raw)
  unfolding safe_payload
  get-safe_payload k raw =
      ground
        (arith, get-remove "caller_ip" k (remove "card_number" raw), get-remove "card_number" k raw)

  -- If the guard finds a card number in another field of the event, the request is answered with a
  -- masking error, and the DLQ gets the request with all its fields but card_number and caller_ip.
  pub publish_leak :
      (takes : Bool) (raw : Record) (s : Topics) (event : Event)
      → build lib cfg channel raw ≡ ok event
      → any_leak lib cfg channel event ≡ true
      → let payload = safe_payload lib cfg channel raw in
        (publish lib cfg channel takes true raw s ≡ (
          err (masking_error leak_found),
          record s {
            dlq =
                s.dlq
                ++ record {
                  payload = payload;
                  error = masking_error leak_found;
                  error_message = [];
                  masking_applied = true;
                }
                  ∷ [];
          },
        ))
        × ((k : String)
            → get k payload
              ≡ (if "caller_ip" == k then none else if "card_number" == k then none else get k raw))
  unfolding publish guard_and_produce produce assert_no_pii_leak catch_error handle_error quoted
  publish_leak takes raw s event h k = (ground (arith, h, k), λ j. get-safe_payload j raw)
