-- ===== src/Prelude/Equality.antt =====
-- `==` for the types that the program compares and uses as dict keys.
use Prim.Native.Nat.{ℕ}
use Prim.Native.String.{String}
use mathlib.Core.Path.{◌≡◌}
use mathlib.Core.Logic.{◌↔◌}
use mathlib.Core.Bool.{Bool, true}
use text.Mathlib.Text.{◌==◌ as same_text}
use text.Mathlib.TextEquality.{eq_iff}
use fraudstream.Prelude.Tests.{◌==◌ as same_number, ==_iff as same_number_iff}
use fraudstream.Prelude.Int.{ℤ, ◌==ℤ◌, ==ℤ_iff}

pub record Comparable {ℓ} (K : Type ℓ) : Type ℓ where
  pub same : K → K → Bool
  pub decides : (x y : K) → (same x y ≡ true) ↔ (x ≡ y)

infix 50 ◌==◌
abbrev pub ◌==◌ {ℓ} : {K : Type ℓ} ⦃c : Comparable K⦄ → K → K → Bool
◌==◌ ⦃c⦄ x y = c.same x y

instance abbrev pub int_eq : Comparable ℤ
int_eq = record { same = ◌==ℤ◌; decides = ==ℤ_iff }

instance abbrev pub string_eq : Comparable String
string_eq = record { same = same_text; decides = eq_iff }

instance abbrev pub nat_eq : Comparable ℕ
nat_eq = record { same = same_number; decides = same_number_iff }
