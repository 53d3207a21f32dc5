-- ===== src/Ingestion/Pan/Luhn.antt =====
-- The check digit finds every wrong digit (pipelines/ingestion/shared/pii_masker/validators.py).
use mathlib.Core.List.{reverse, reverse-append, reverse-cons, append_assoc}
use fraudstream.Prelude.{
  ℕ, ◌+◌, ◌%◌, ◌<◌, ◌≡◌, ◌≢◌, true, List, [], ◌∷◌, ◌++◌, some, arith, Option-cases, inl, inr,
}
use fraudstream.Ingestion.Pan.{Unicode, weighted, luhn_sum, luhn_valid}

-- Different digits have different weights, also modulo 10.
weighted_injective :
    (i a b x y : ℕ)
    → a < 10
    → b < 10
    → a ≢ b
    → x + weighted i b ≡ y + weighted i a
    → x % 10 ≡ 0
    → y % 10 ≢ 0
weighted_injective i a b x y ha hb ne e h = ground arith

module _ (u : Unicode) where
  luhn_sum_cons :
      (c : ℕ) (xs : List ℕ) (i t x : ℕ)
      → luhn_sum u i t (c ∷ xs) ≡ some x
      → (n : ℕ) × (u.decimal c ≡ some n) × (luhn_sum u (i + 1) (t + weighted i n) xs ≡ some x)
  unfolding luhn_sum
  luhn_sum_cons c xs i t x h = elim (Option-cases (u.decimal c)) [
    | inl e ↦ absurd (ground arith)
    | inr (n, e) ↦ (n, e, ground arith)
  ]

  -- The loop adds what it finds to the total that it started from.
  luhn_sum_shift :
      (xs : List ℕ) (i s t x y : ℕ)
      → luhn_sum u i s xs ≡ some x
      → luhn_sum u i t xs ≡ some y
      → x + t ≡ y + s
  luhn_sum_shift [] i s t x y h k = unfold luhn_sum in ground arith
  luhn_sum_shift (c ∷ xs) i s t x y h k =
      let (n, e, hn) = luhn_sum_cons c xs i s x h in
      let (m, f, km) = luhn_sum_cons c xs i t y k in
      let same : n ≡ m = cc in
      let step =
        luhn_sum_shift xs (i + 1) (s + weighted i n) (t + weighted i n) x y hn (rw same km) in
      omega arith

  luhn_sum_substitute :
      (pre post : List ℕ) (c d a b i t x y : ℕ)
      → u.decimal c ≡ some a
      → u.decimal d ≡ some b
      → a < 10
      → b < 10
      → a ≢ b
      → luhn_sum u i t (pre ++ c ∷ post) ≡ some x
      → luhn_sum u i t (pre ++ d ∷ post) ≡ some y
      → x % 10 ≡ 0
      → y % 10 ≢ 0
  luhn_sum_substitute [] post c d a b i t x y hc hd ha hb ne h k z =
      let (n, e, hn) = luhn_sum_cons c post i t x h in
      let (m, f, km) = luhn_sum_cons d post i t y k in
      let n_is : n ≡ a = cc in
      let m_is : m ≡ b = cc in
      let shift = luhn_sum_shift post (i + 1) (t + weighted i n) (t + weighted i m) x y hn km in
      weighted_injective i a b x y ha hb ne (rw (← n_is, ← m_is) (omega arith)) z
  luhn_sum_substitute (p ∷ pre) post c d a b i t x y hc hd ha hb ne h k z =
      let (n, e, hn) = luhn_sum_cons p (pre ++ c ∷ post) i t x h in
      let (m, f, km) = luhn_sum_cons p (pre ++ d ∷ post) i t y k in
      let same : n ≡ m = cc in
      luhn_sum_substitute pre post c d a b (i + 1) (t + weighted i n) x y hc hd ha hb ne hn
        (rw same km) z

  reverse_middle :
      (pre post : List ℕ) (c : ℕ) → reverse (pre ++ c ∷ post) ≡ reverse post ++ c ∷ reverse pre
  reverse_middle pre post c =
      rw (reverse-append pre (c ∷ post))
        (rw (reverse-cons c post) (append_assoc (reverse post) (c ∷ []) (reverse pre)))

  luhn_valid_total :
      (digits : List ℕ)
      → luhn_valid u digits ≡ some true
      → (x : ℕ) × (luhn_sum u 0 0 (reverse digits) ≡ some x) × (x % 10 ≡ 0)
  unfolding luhn_valid
  luhn_valid_total digits h = elim (Option-cases (luhn_sum u 0 0 (reverse digits))) [
    | inl e ↦ absurd (ground arith)
    | inr (x, e) ↦ (x, e, ground arith)
  ]

  -- If one digit of a number that passes the check is replaced by a digit of another value, at
  -- any place, the number no longer passes.
  pub luhn_valid_substitute :
      (pre post : List ℕ) (c d a b : ℕ)
      → u.decimal c ≡ some a
      → u.decimal d ≡ some b
      → a < 10
      → b < 10
      → a ≢ b
      → luhn_valid u (pre ++ c ∷ post) ≡ some true
      → luhn_valid u (pre ++ d ∷ post) ≢ some true
  luhn_valid_substitute pre post c d a b hc hd ha hb ne h k =
      let (x, e, z) = luhn_valid_total (pre ++ c ∷ post) h in
      let (y, f, w) = luhn_valid_total (pre ++ d ∷ post) k in
      luhn_sum_substitute (reverse post) (reverse pre) c d a b 0 0 x y hc hd ha hb ne
        (rw reverse_middle at e) (rw reverse_middle at f) z w
