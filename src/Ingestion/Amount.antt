-- ===== src/Ingestion/Amount.antt =====
-- pipelines/ingestion/api/producer.py, TransactionEventBuilder.build: the bytes of an amount, and
-- what an Avro reader makes of the bytes of a decimal.
use fraudstream.Prelude.{
  ℕ, zero, suc, ◌+◌, ◌-◌, ◌*◌, ◌/◌, ◌%◌, ◌^◌, ◌≤◌, ◌<◌, ◌≡◌, refl, List, [], ◌∷◌, ◌++◌, arith,
  length, length-append, ltb, ◌==◌, if◌then◌else◌,
}
use fraudstream.Prelude.Int.{ℤ, pos, negsuc}
use native.Mathlib.Nat.{pow-le-pow_right, pow-suc}

-- The bits of m, which is at most the fuel.
unfoldable pub bits : ℕ → ℕ → ℕ
bits zero m = 0
bits (suc fuel) m = let rest = bits fuel (m / 2) in if m == 0 then 0 else suc rest

-- z.bit_length()
abbrev pub bit_length : ℤ → ℕ
bit_length (pos m) = bits m m
bit_length (negsuc m) = bits (suc m) (suc m)

-- The last n base-256 digits of m, the first digit first.
unfoldable pub digits : ℕ → ℕ → List ℕ
digits zero m = []
digits (suc n) m = digits n (m / 256) ++ m % 256 ∷ []

-- z.to_bytes(n, byteorder="big", signed=True), where n bytes are enough
abbrev pub to_bytes : ℕ → ℤ → List ℕ
to_bytes n (pos m) = digits n m
to_bytes n (negsuc m) = digits n (256 ^ n - 1 - m)

-- (amount_int.bit_length() + 8) // 8
abbrev pub byte_length : ℤ → ℕ
byte_length z = (bit_length z + 8) / 8

unfoldable pub amount_to_bytes : ℤ → List ℕ
unfolding digits bits
amount_to_bytes z = to_bytes (byte_length z) z

unfoldable pub number : ℕ → List ℕ → ℕ
number acc [] = acc
number acc (b ∷ bs) = number (acc * 256 + b) bs

-- Big-endian two's complement.
unfoldable pub from_bytes : List ℕ → ℤ
unfolding number
from_bytes bs =
    let v = number 0 bs in
    let all = 256 ^ length bs in if ltb (v * 2) all then pos v else negsuc (all - 1 - v)

length-digits : (n m : ℕ) → length (digits n m) ≡ n
unfolding digits
length-digits zero m = refl
length-digits (suc n) m =
    omega (arith, length-append (digits n (m / 256)) (m % 256 ∷ []), length-digits n (m / 256))

number_add : (acc : ℕ) (bs : List ℕ) (b : ℕ) → number acc (bs ++ b ∷ []) ≡ number acc bs * 256 + b
unfolding number
number_add acc [] b = refl
number_add acc (c ∷ bs) b = number_add (acc * 256 + c) bs b

number-digits : (n m : ℕ) → m < 256 ^ n → number 0 (digits n m) ≡ m
unfolding digits number
number-digits zero m h = ground arith
number-digits (suc n) m h =
    ground
      (arith, pow-suc 256 n, number_add 0 (digits n (m / 256)) (m % 256), number-digits n (m / 256))

lt-bits : (fuel m : ℕ) → m ≤ fuel → m < 2 ^ bits fuel m
unfolding bits
lt-bits zero m h = ground arith
lt-bits (suc fuel) m h = ground (arith, lt-bits fuel (m / 2), pow-suc 2 (bits fuel (m / 2)))

pow_eight : (n : ℕ) → 2 ^ (8 + n) ≡ 2 ^ n * 256
pow_eight n =
    let four : (i : ℕ) → 2 ^ suc (suc (suc (suc i))) ≡ 2 ^ i * 16 = λ i. omega (
      arith,
      pow-suc 2 i,
      pow-suc 2 (suc i),
      pow-suc 2 (suc (suc i)),
      pow-suc 2 (suc (suc (suc i))),
    ) in
    let shift : 8 + n ≡ suc (suc (suc (suc (suc (suc (suc (suc n))))))) = omega arith in
    rw shift (omega (arith, four n, four (suc (suc (suc (suc n))))))

pow_bytes : (k : ℕ) → 256 ^ k ≡ 2 ^ (8 * k)
pow_bytes zero = refl
pow_bytes (suc k) =
    let shift : 8 * suc k ≡ 8 + 8 * k = omega arith in
    rw shift (omega (arith, pow-suc 256 k, pow_bytes k, pow_eight (8 * k)))

fits : (b : ℕ) → 2 ^ b * 2 ≤ 256 ^ ((b + 8) / 8)
fits b =
    let within : suc b ≤ 8 * ((b + 8) / 8) = omega arith in
    omega
      (arith, pow-suc 2 b, pow_bytes ((b + 8) / 8), pow-le-pow_right {n = 2} (omega arith) within)

-- An amount of any size and sign is read back from its bytes.
pub from_bytes-amount_to_bytes : (z : ℤ) → from_bytes (amount_to_bytes z) ≡ z
unfolding from_bytes amount_to_bytes
from_bytes-amount_to_bytes (pos m) =
    let n = byte_length (pos m) in
    let b = bit_length (pos m) in
    let small : m * 2 < 256 ^ n = omega (arith, fits b, lt-bits m m (omega arith)) in
    ground (arith, small, length-digits n m, number-digits n m (omega (arith, small)))
from_bytes-amount_to_bytes (negsuc m) =
    let n = byte_length (negsuc m) in
    let b = bit_length (negsuc m) in
    let small : suc m * 2 < 256 ^ n =
      omega (arith, fits b, lt-bits (suc m) (suc m) (omega arith)) in
    let v = 256 ^ n - 1 - m in
    ground (arith, small, length-digits n v, number-digits n v (omega (arith, small)))
