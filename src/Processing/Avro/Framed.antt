-- ===== src/Processing/Avro/Framed.antt =====
-- The frame of a message is read back, and what is read has that frame
-- (pipelines/processing/shared/avro_serde.py).
use fraudstream.Prelude.{
  ℕ, ◌/◌, ◌%◌, ◌<◌, ◌≡◌, refl, [], ◌∷◌, Option, none, some, arith, ◌==◌, Option-cases, Bool-cases,
  inl, inr,
}
use fraudstream.Prelude.Results.{ok, err}
use fraudstream.Processing.Avro.{
  Bytes, unpack_id, pack_id, check_id, decode, decode_checked, deserialise, serialise,
}

unpack-pack_id :
    (n : ℕ)
    → n < 4294967296
    → unpack_id (n / 16777216) (n / 65536 % 256) (n / 256 % 256) (n % 256) ≡ n
unfolding unpack_id
unpack-pack_id n h = omega arith

module _ {A T : Type 0} (read : Bytes → Option A) (to_transaction : A → Option T) where
  -- What is read has a frame with the id that was asked for, if one was, and a body that is read.
  pub deserialise_ok :
      (expected : Option ℕ) (payload : Bytes) (t : T)
      → deserialise read to_transaction expected payload ≡ ok t
      → (a : ℕ) × (b : ℕ) × (c : ℕ) × (d : ℕ) × (body : Bytes) × (payload
          ≡ 0 ∷ a ∷ b ∷ c ∷ d ∷ body)
        × (check_id expected (unpack_id a b c d) ≡ none)
        × (decode read to_transaction body ≡ ok t)
  unfolding deserialise decode_checked
  deserialise_ok expected (magic ∷ a ∷ b ∷ c ∷ d ∷ body) t h = elim (Bool-cases (magic == 0)) [
    | inr other ↦ absurd (ground (arith, other, h))
    | inl zero_magic ↦
        let magic_same : magic ≡ 0 = ground arith in
        elim (Option-cases (check_id expected (unpack_id a b c d))) [
          | inr (e, mismatch) ↦ absurd (ground (arith, zero_magic, mismatch, h))
          | inl matches ↦ (
            a,
            b,
            c,
            d,
            body,
            rw magic_same refl,
            matches,
            ground (arith, zero_magic, matches, h),
          )
        ]
  ]
  deserialise_ok expected [] t h = absurd (cc)
  deserialise_ok expected (x ∷ []) t h = absurd (cc)
  deserialise_ok expected (x ∷ y ∷ []) t h = absurd (cc)
  deserialise_ok expected (x ∷ y ∷ z ∷ []) t h = absurd (cc)
  deserialise_ok expected (x ∷ y ∷ z ∷ w ∷ []) t h = absurd (cc)

  module _ {R : Type 0} (write : R → Option Bytes) where
    -- A message that is written with a schema id of 32 bits is read as its body is, if that id is asked for
    -- or none is, and is refused with both ids if another is.
    pub deserialise-serialise :
        (r : R) (body : Bytes) (id : ℕ) (expected : Option ℕ)
        → write r ≡ some body
        → id < 4294967296
        → (payload : Bytes) × (serialise write r id ≡ some payload)
          × (deserialise read to_transaction expected payload ≡ elim (check_id expected id) [
            | none ↦ decode read to_transaction body
            | some e ↦ err e
          ])
    unfolding serialise pack_id deserialise decode_checked
    deserialise-serialise r body id expected h small = (
      0 ∷ id / 16777216 ∷ id / 65536 % 256 ∷ id / 256 % 256 ∷ id % 256 ∷ body,
      ground (arith, h, small),
      rw (unpack-pack_id id small) refl,
    )
