-- ===== src/Ingestion/Pan.antt =====
-- pipelines/ingestion/shared/pii_masker/{validators,masker,config}.py: card numbers, checked and
-- masked. A text is the list of its code points. The Unicode tables behind `\s`, `str.isdigit` and
-- `int` are a parameter.
pub mod Luhn
pub mod Masked
use mathlib.Core.List.{reverse}
use fraudstream.Prelude.{
  ℕ, ◌+◌, ◌-◌, ◌*◌, ◌%◌, ◌<◌, ◌≡◌, Bool, true, false, not, ◌&&◌, ◌||◌, List, [], ◌∷◌, ◌++◌, Option,
  none, some, ltb, ◌==◌, length, take, drop, replicate, if◌then◌else◌,
}
use fraudstream.Prelude.Results.{Result, ok, err, ◌>>=◌}

-- What the standard library knows of a character.
pub record Unicode : Type 0 where
  -- matched by `\s`
  pub is_space : ℕ → Bool
  -- ch.isdigit()
  pub is_digit : ℕ → Bool
  -- int(ch), none where it raises ValueError: a superscript digit is a digit with no int
  pub decimal : ℕ → Option ℕ

pub data PanError : Type 0 where
  -- with the text, which the message quotes
  non_digit : List ℕ → PanError
  bad_length : ℕ → PanError
  luhn_failed : PanError
  -- the ValueError of `int`, which quotes the one character
  bad_int : PanError

-- MaskingConfig
pub record MaskingConfig : Type 0 where
  pub ipv4_prefix : ℕ
  pub ipv6_prefix : ℕ
  pub reject_invalid_pan : Bool

-- MaskedPAN
pub record MaskedPan : Type 0 where
  pub bin6 : List ℕ
  pub last4 : List ℕ
  pub length_of : ℕ

abbrev pub star : ℕ
star = b'*'

-- MaskedPAN.display; '*' * k is "" at a negative k
unfoldable pub display : MaskedPan → List ℕ
display p = p.bin6 ++ (replicate (p.length_of - 10) star ++ p.last4)

-- The weight of the digit n at position i from the right.
abbrev pub weighted : ℕ → ℕ → ℕ
weighted i n = if i % 2 == 1 then (let m = n * 2 in if ltb 9 m then m - 9 else m) else n

module _ (u : Unicode) where
  -- re.sub(r"[\s\-]", "", pan)
  unfoldable pub strip : List ℕ → List ℕ
  strip [] = []
  strip (c ∷ s) = let rest = strip s in if u.is_space c || c == b'-' then rest else c ∷ rest

  all_digits : List ℕ → Bool
  all_digits [] = true
  all_digits (c ∷ s) = u.is_digit c && all_digits s

  -- s.isdigit()
  unfoldable pub isdigit : List ℕ → Bool
  unfolding all_digits
  isdigit [] = false
  isdigit (c ∷ s) = all_digits (c ∷ s)

  -- The loop of _luhn_valid from position i.
  unfoldable pub luhn_sum : ℕ → ℕ → List ℕ → Option ℕ
  luhn_sum i total [] = some total
  luhn_sum i total (ch ∷ rest) = elim (u.decimal ch) [
    | none ↦ none
    | some n ↦ luhn_sum (i + 1) (total + weighted i n) rest
  ]

  -- _luhn_valid, none where it raises
  unfoldable pub luhn_valid : List ℕ → Option Bool
  unfolding luhn_sum
  luhn_valid digits = elim (luhn_sum 0 0 (reverse digits)) [
    | none ↦ none
    | some total ↦ some (total % 10 == 0)
  ]

  -- extract_pan_parts; digits[-4:] of at least four digits is what is left after all but four
  unfoldable pub extract_pan_parts : List ℕ → Result PanError (List ℕ × List ℕ)
  unfolding strip isdigit luhn_valid
  extract_pan_parts pan =
      let digits = strip pan in
      if not (isdigit digits)
      then err (non_digit pan)
      else if not (length digits == 15 || length digits == 16)
      then err (bad_length (length digits))
      else elim (luhn_valid digits) [
        | none ↦ err bad_int
        | some false ↦ err luhn_failed
        | some true ↦ ok (take 6 digits, drop (length digits - 4) digits)
      ]

  -- RawPAN.__init__
  unfoldable pub raw_pan : List ℕ → List ℕ
  unfolding strip
  raw_pan pan = strip pan

  -- RawPAN.mask
  unfoldable pub mask : MaskingConfig → List ℕ → Result PanError MaskedPan
  unfolding extract_pan_parts
  mask cfg digits = do
    (bin6, last4) ← extract_pan_parts digits
    ok (record { bin6 = bin6; last4 = last4; length_of = length digits })
