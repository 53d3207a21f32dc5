-- ===== src/Tests/Ingestion.antt =====
-- Card numbers, with the ASCII part of the Unicode tables.
use fraudstream.Prelude.{
  ℕ, ◌-◌, ◌<◌, ◌≡◌, ◌≢◌, refl, Bool, true, ◌&&◌, ◌||◌, List, ◌∷◌, ◌++◌, none, some, arith, leb,
  ◌==◌, length, get_elem?, if◌then◌else◌,
}
use fraudstream.Prelude.Results.{ok, err}
use fraudstream.Value.{codes}
use fraudstream.Ingestion.Pan.{
  Unicode, MaskingConfig, MaskedPan, display, luhn_valid, raw_pan, mask, bad_length,
}
use fraudstream.Ingestion.Pan.Luhn.{luhn_valid_substitute}
use fraudstream.Ingestion.Pan.Masked.{shown_at, display-mask}

abbrev pub is_ascii_digit : ℕ → Bool
is_ascii_digit c = leb 48 c && leb c 57

abbrev pub ascii : Unicode
ascii = record {
  is_space = λ c. (leb 9 c && leb c 13) || c == 32;
  is_digit = is_ascii_digit;
  decimal = λ c. if is_ascii_digit c then some (c - 48) else none;
}

abbrev pub config : MaskingConfig
config = record { ipv4_prefix = 24; ipv6_prefix = 64; reject_invalid_pan = true }

abbrev pan : List ℕ
pan = codes "4111 1111-1111 1111"

abbrev masked : MaskedPan
masked = record { bin6 = codes "411111"; last4 = codes "1111"; length_of = 16 }

mask_run : mask ascii config (raw_pan ascii pan) ≡ ok masked
unfolding mask raw_pan
mask_run = refl

display_run : display masked ≡ codes "411111******1111"
unfolding display
display_run = refl

short_run : mask ascii config (raw_pan ascii (codes "4111")) ≡ err (bad_length 4)
unfolding mask raw_pan
short_run = refl

long_enough : 7 < length (raw_pan ascii pan)
unfolding raw_pan
long_enough = omega arith

display-mask_example :
    (length (display masked) ≡ length (raw_pan ascii pan))
    × (get_elem? (display masked) 7 ≡ shown_at (raw_pan ascii pan) 7)
display-mask_example = display-mask ascii config pan masked 7 mask_run long_enough

luhn_run : luhn_valid ascii (codes "411111111111" ++ 49 ∷ codes "111") ≡ some true
unfolding luhn_valid
luhn_run = refl

luhn_valid_substitute_example :
    luhn_valid ascii (codes "411111111111" ++ 55 ∷ codes "111") ≢ some true
luhn_valid_substitute_example =
    luhn_valid_substitute ascii (codes "411111111111") (codes "111") 49 55 1 7 refl refl
      (omega arith) (omega arith) (omega arith) luhn_run
