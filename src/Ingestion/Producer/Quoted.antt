-- ===== src/Ingestion/Producer/Quoted.antt =====
-- What the message of an error quotes of a request (pipelines/ingestion/api/producer.py,
-- pipelines/ingestion/shared/pii_masker/).
use fraudstream.Prelude.{
  ℕ, ◌≡◌, refl, String, false, List, [], ◌∷◌, none, some, Option-cases, inl, inr, arith,
}
use fraudstream.Prelude.Results.{Result, ok, err}
use fraudstream.Prelude.Equality.{string_eq}
use fraudstream.Prelude.Dict.{get}
use fraudstream.Value.{Value, Record, null, bool, num, str, codes}
use fraudstream.Ingestion.Pan.{
  MaskingConfig, MaskedPan, PanError, non_digit, bad_length, luhn_failed, bad_int, isdigit, strip,
  raw_pan, mask, extract_pan_parts,
}
use fraudstream.Ingestion.Producer.{
  Library, Field, text, plain, address_unmasked, card_unmasked, address_missing, quoted,
  or_masking_error, mask_card, truncate_ip, PublishError, invalid_pan, masking_error, other_error,
  build,
}

module _ (lib : Library) (cfg : MaskingConfig) (channel : String) where
  -- What the message of an error may quote of a request: nothing; its card number without separators,
  -- if that is not all digits; its address, if that cannot be masked.
  pub data Quotes (raw : Record) : List Field → Type 0 where
    no_value : Quotes raw []
    card :
        (s : String)
        → get "card_number" raw ≡ some (str s)
        → isdigit lib.unicode (strip lib.unicode (raw_pan lib.unicode (codes s))) ≡ false
        → Quotes raw (text (raw_pan lib.unicode (codes s)) ∷ [])
    address :
        (ip : Value)
        → get "caller_ip" raw ≡ some ip
        → truncate_ip lib cfg channel ip ≡ none
        → Quotes raw (plain ip ∷ [])

  mask-non_digit :
      (pan s : List ℕ)
      → mask lib.unicode cfg pan ≡ err (non_digit s)
      → (s ≡ pan) × (isdigit lib.unicode (strip lib.unicode pan) ≡ false)
  unfolding mask extract_pan_parts
  mask-non_digit pan s h = ground arith

  pub said_of :
      {raw : Record} {d e : PublishError} → d ≡ e → Quotes raw (quoted d) → Quotes raw (quoted e)
  said_of p q = rw (← p) q

  mask_card-Quotes :
      (raw : Record) (v : Value) (e : PublishError)
      → get "card_number" raw ≡ some v
      → mask_card lib cfg channel v ≡ err e
      → Quotes raw (quoted e)
  unfolding quoted mask_card
  mask_card-Quotes raw (str s) e given h =
      masked (mask lib.unicode cfg (raw_pan lib.unicode (codes s))) refl h
    where
      masked :
          (r : Result PanError MaskedPan)
          → mask lib.unicode cfg (raw_pan lib.unicode (codes s)) ≡ r
          → or_masking_error r ≡ err e
          → Quotes raw (quoted e)
      masked (ok m) h k = absurd (ground arith)
      masked (err (non_digit t)) h k =
          let said = mask-non_digit (raw_pan lib.unicode (codes s)) t h in
          said_of {d = invalid_pan (non_digit (raw_pan lib.unicode (codes s)))}
            (ground (arith, said, k)) (card s given said.1)
      masked (err (bad_length n)) h k =
          said_of {d = invalid_pan (bad_length n)} (ground (arith, k)) no_value
      masked (err luhn_failed) h k =
          said_of {d = invalid_pan luhn_failed} (ground (arith, k)) no_value
      masked (err bad_int) h k =
          said_of {d = masking_error card_unmasked} (ground (arith, k)) no_value
  mask_card-Quotes raw null e given h =
      said_of {d = masking_error card_unmasked} (ground (arith, h)) no_value
  mask_card-Quotes raw (bool b) e given h =
      said_of {d = masking_error card_unmasked} (ground (arith, h)) no_value
  mask_card-Quotes raw (num n) e given h =
      said_of {d = masking_error card_unmasked} (ground (arith, h)) no_value

  build_masked-Quotes :
      (raw : Record) (v : Value) (m : MaskedPan) (e : PublishError)
      → get "card_number" raw ≡ some v
      → mask_card lib cfg channel v ≡ ok m
      → build lib cfg channel raw ≡ err e
      → Quotes raw (quoted e)
  unfolding quoted build
  build_masked-Quotes raw v m e given masked h = elim (Option-cases (get "caller_ip" raw)) [
    | inl n ↦
        said_of {d = masking_error address_missing} (ground (arith, given, masked, n, h)) no_value
    | inr (ip, i) ↦ elim (Option-cases (truncate_ip lib cfg channel ip)) [
      | inl n ↦
          said_of {d = masking_error (address_unmasked ip)} (ground (arith, given, masked, i, n, h))
            (address ip i n)
      | inr (subnet, j) ↦
          said_of {d = other_error} (ground (arith, given, masked, i, j, h)) no_value
    ]
  ]

  pub build-Quotes :
      (raw : Record) (e : PublishError) → build lib cfg channel raw ≡ err e → Quotes raw (quoted e)
  unfolding quoted build
  build-Quotes raw e h = elim (Option-cases (get "card_number" raw)) [
    | inl n ↦ said_of {d = masking_error card_unmasked} (ground (arith, n, h)) no_value
    | inr (v, given) ↦ of_card v given (mask_card lib cfg channel v) refl
  ]
    where
      of_card :
          (v : Value)
          → get "card_number" raw ≡ some v
          → (r : Result PublishError MaskedPan) → mask_card lib cfg channel v ≡ r
          → Quotes raw (quoted e)
      of_card v given (err d) k =
          said_of {d = d} (ground (arith, given, k, h)) (mask_card-Quotes raw v d given k)
      of_card v given (ok m) k = build_masked-Quotes raw v m e given k h
