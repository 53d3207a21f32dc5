-- ===== src/Ingestion/Producer.antt =====
-- pipelines/ingestion/api/producer.py: ProducerService.publish with TransactionEventBuilder.build and
-- the guard against card numbers. Values of a payload that are lists or objects are left out. The
-- standard library's ipaddress, float, int and uuid, and the Kafka producers, are parameters.
pub mod Quoted
pub mod Guard
pub mod Envelope
use fraudstream.Prelude.{
  ℕ, String, Bool, true, false, not, ◌&&◌, ◌||◌, List, [], ◌∷◌, ◌++◌, Option, none, some, leb,
  length, if◌then◌else◌,
}
use fraudstream.Prelude.Int.{ℤ}
use fraudstream.Prelude.Results.{Result, ok, err, ◌>>=◌}
use fraudstream.Prelude.Equality.{◌==◌, string_eq}
use fraudstream.Prelude.Dict.{Dict, get, remove}
use fraudstream.Value.{Value, null, bool, num, str, int, truthy, get_value, Record, codes}
use fraudstream.Ingestion.Amount.{amount_to_bytes}
use fraudstream.Ingestion.Pan.{
  Unicode, PanError, non_digit, bad_length, luhn_failed, bad_int, MaskingConfig, MaskedPan, raw_pan,
  mask,
}

-- ipaddress.ip_address(ip)
pub record Address : Type 0 where
  pub is_multicast : Bool
  pub is_ipv4 : Bool

pub record Library : Type 0 where
  pub unicode : Unicode
  -- none where ip_address raises
  pub ip_address : Value → Option Address
  -- str(ip_network(f"{ip}/{prefix}", strict=False).network_address), none where it raises
  pub network_address : Value → ℕ → Option String
  -- round(float(v) * 10_000), none where it raises
  pub scaled_amount : Value → Option ℤ
  -- int(v), none where it raises
  pub to_int : Value → Option ℤ
  -- matched by `\d`
  pub is_decimal : ℕ → Bool
  pub uuid : String
  pub now_ms : ℤ

-- A value of an event; `text` is a text by its code points.
pub data Field : Type 0 where
  plain : Value → Field
  text : List ℕ → Field
  bytes : List ℕ → Field

abbrev pub Event : Type 0
Event = Dict String Field

-- What a MaskingError is about: a card number that is missing, is no text, or has a digit that `int`
-- does not take; an address that is missing; one that cannot be masked; the guard.
pub data MaskingReason : Type 0 where
  card_unmasked address_missing leak_found : MaskingReason
  address_unmasked : Value → MaskingReason

-- InvalidPANError, MaskingError, any other exception
pub data PublishError : Type 0 where
  invalid_pan : PanError → PublishError
  masking_error : MaskingReason → PublishError
  other_error : PublishError

-- The values of the request that str(exc) writes out, but for a single character of a card number
-- that `int` does not take: the card number that is not all digits, without its separators, and the
-- address that cannot be masked.
unfoldable pub quoted : PublishError → List Field
quoted (invalid_pan (non_digit s)) = text s ∷ []
quoted (invalid_pan (bad_length _)) = []
quoted (invalid_pan luhn_failed) = []
quoted (invalid_pan bad_int) = []
quoted (masking_error (address_unmasked ip)) = plain ip ∷ []
quoted (masking_error card_unmasked) = []
quoted (masking_error address_missing) = []
quoted (masking_error leak_found) = []
quoted other_error = []

-- A message to txn.api.dlq; the error's message is given by what it quotes.
pub record DlqMessage : Type 0 where
  pub payload : Record
  pub error : PublishError
  pub error_message : List Field
  pub masking_applied : Bool

pub record Topics : Type 0 where
  pub produced : List Event
  pub dlq : List DlqMessage

abbrev pub or_masking_error : Result PanError MaskedPan → Result PublishError MaskedPan
or_masking_error (ok masked) = ok masked
or_masking_error (err (non_digit s)) = err (invalid_pan (non_digit s))
or_masking_error (err (bad_length n)) = err (invalid_pan (bad_length n))
or_masking_error (err luhn_failed) = err (invalid_pan luhn_failed)
or_masking_error (err bad_int) = err (masking_error card_unmasked)

abbrev pub or_raise {ℓ} : {A : Type ℓ} → PublishError → Option A → Result PublishError A
or_raise e none = err e
or_raise e (some a) = ok a

module _ (lib : Library) (cfg : MaskingConfig) (channel : String) where
  -- truncate_ip of pipelines/ingestion/shared/pii_masker/masker.py, none where it raises
  unfoldable pub truncate_ip : Value → Option String
  truncate_ip ip = elim (lib.ip_address ip) [
    | none ↦ none
    | some addr ↦
        if addr.is_multicast
        then none
        else lib.network_address ip (if addr.is_ipv4 then cfg.ipv4_prefix else cfg.ipv6_prefix)
  ]

  -- RawPAN(card_number).mask(cfg); a value that is no text raises a TypeError
  unfoldable pub mask_card : Value → Result PublishError MaskedPan
  unfolding mask raw_pan
  mask_card (str s) = or_masking_error (mask lib.unicode cfg (raw_pan lib.unicode (codes s)))
  mask_card _ = err (masking_error card_unmasked)

  -- TransactionEventBuilder.build
  unfoldable pub build : Record → Result PublishError Event
  unfolding get mask_card truncate_ip get_value amount_to_bytes
  build raw = do
    card ← or_raise (masking_error card_unmasked) (get "card_number" raw)
    masked ← mask_card card
    ip ← or_raise (masking_error address_missing) (get "caller_ip" raw)
    subnet ← or_raise (masking_error (address_unmasked ip)) (truncate_ip ip)
    raw_amount ← or_raise other_error (get "amount" raw)
    amount ← or_raise other_error (lib.scaled_amount raw_amount)
    account ← or_raise other_error (get "account_id" raw)
    merchant ← or_raise other_error (get "merchant_id" raw)
    currency ← or_raise other_error (get "currency" raw)
    raw_time ← or_raise other_error (get "event_time" raw)
    event_time ← or_raise other_error (lib.to_int raw_time)
    key ← or_raise other_error (get "api_key_id" raw)
    scope ← or_raise other_error (get "oauth_scope" raw)
    let id = get_value "transaction_id" raw
    ok (
        ("transaction_id", plain (if truthy id then id else str lib.uuid))
        ∷ ("account_id", plain account)
        ∷ ("merchant_id", plain merchant)
        ∷ ("amount", bytes (amount_to_bytes amount))
        ∷ ("currency", plain currency)
        ∷ ("event_time", plain (int event_time))
        ∷ ("processing_time", plain (int lib.now_ms))
        ∷ ("channel", plain (str channel))
        ∷ ("card_bin", text masked.bin6)
        ∷ ("card_last4", text masked.last4)
        ∷ ("caller_ip_subnet", plain (str subnet))
        ∷ ("api_key_id", plain key)
        ∷ ("oauth_scope", plain scope)
        ∷ ("geo_lat", plain (get_value "geo_lat" raw))
        ∷ ("geo_lon", plain (get_value "geo_lon" raw))
        ∷ ("masking_lib_version", plain (str "1.0.0"))
        ∷ ("schema_version", plain (str "1"))
        ∷ [])

  abbrev all_decimal : List ℕ → Bool
  all_decimal [] = true
  all_decimal (c ∷ s) = lib.is_decimal c && all_decimal s

  -- _PII_PATTERN.fullmatch: 15 to 19 digits, between two word boundaries
  abbrev pub looks_like_card : List ℕ → Bool
  looks_like_card s = all_decimal s && leb 15 (length s) && leb (length s) 19

  abbrev pub is_leak : Field → Bool
  is_leak (plain (str s)) = looks_like_card (codes s)
  is_leak (plain _) = false
  is_leak (text s) = looks_like_card s
  is_leak (bytes _) = false

  abbrev pub any_leak : Event → Bool
  any_leak [] = false
  any_leak ((_, v) ∷ event) = is_leak v || any_leak event

  abbrev pub has_key : String → Event → Bool
  has_key k event = elim (get k event) [ none ↦ false | some _ ↦ true ]

  -- _assert_no_pii_leak
  unfoldable pub assert_no_pii_leak : Event → Result PublishError Event
  unfolding get
  assert_no_pii_leak event =
      if has_key "card_number" event || any_leak event
      then err (masking_error leak_found)
      else ok event

  -- The payload of _handle_pre_serialise_error.
  unfoldable pub safe_payload : Record → Record
  unfolding remove
  safe_payload raw = remove "caller_ip" (remove "card_number" raw)

  -- _handle_pre_serialise_error; `sends` is whether send_to_dlq does not raise
  unfoldable pub handle_error : Bool → PublishError → Record → Bool → Topics → Topics
  unfolding safe_payload quoted
  handle_error true e raw masking_applied topics = record topics {
    dlq =
        topics.dlq
        ++ record {
          payload = safe_payload raw;
          error = e;
          error_message = quoted e;
          masking_applied = masking_applied;
        }
          ∷ [];
  }
  handle_error false e raw masking_applied topics = topics

  -- except (InvalidPANError, MaskingError)
  unfoldable pub catch_error :
      Bool → PublishError → Record → Bool → Topics → Result PublishError Event × Topics
  unfolding handle_error
  catch_error sends other_error raw masking_applied topics = (err other_error, topics)
  catch_error sends (masking_error m) raw masking_applied topics =
      (err (masking_error m), handle_error sends (masking_error m) raw masking_applied topics)
  catch_error sends (invalid_pan e) raw masking_applied topics =
      (err (invalid_pan e), handle_error sends (invalid_pan e) raw masking_applied topics)

  -- The rest of publish once the guard has run; `takes` is whether produce does not raise.
  unfoldable pub produce :
      Bool → Bool → Record → Topics → Result PublishError Event → Result PublishError Event × Topics
  unfolding catch_error
  produce takes sends raw topics (err e) = catch_error sends e raw true topics
  produce true sends raw topics (ok event) =
      (ok event, record topics { produced = topics.produced ++ event ∷ [] })
  produce false sends raw topics (ok event) = (err other_error, topics)

  unfoldable pub guard_and_produce :
      Bool → Bool → Record → Topics → Result PublishError Event → Result PublishError Event × Topics
  unfolding assert_no_pii_leak catch_error produce
  guard_and_produce takes sends raw topics (err e) = catch_error sends e raw false topics
  guard_and_produce takes sends raw topics (ok event) =
      produce takes sends raw topics (assert_no_pii_leak event)

  -- publish, which gives the event for its PublishResult
  unfoldable pub publish : Bool → Bool → Record → Topics → Result PublishError Event × Topics
  unfolding build guard_and_produce
  publish takes sends raw topics = guard_and_produce takes sends raw topics (build raw)
