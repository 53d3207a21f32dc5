-- ===== src/Prelude/Results.antt =====
-- What a call that may raise comes back with: the exception, or a value. `do` blocks stop at the
-- first exception.
pub data Result {ℓ κ} (E : Type ℓ) (A : Type κ) : Type (ℓ ⊔ κ) where
  err : E → Result E A
  ok : A → Result E A

infixl 5 ◌>>=◌
abbrev pub ◌>>=◌ {ℓ κ μ} :
    {E : Type ℓ} {A : Type κ} {B : Type μ} → Result E A → (A → Result E B) → Result E B
err raised >>= next = err raised
ok value >>= next = next value
