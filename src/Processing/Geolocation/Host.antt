-- ===== src/Processing/Geolocation/Host.antt =====
-- The host that stands for a subnet (pipelines/processing/operators/geolocation.py).
use fraudstream.Prelude.{
  ℕ, ◌≡◌, refl, ap, false, List, [], ◌∷◌, ◌++◌, arith, ◌==◌, Bool-cases, inl, inr, if◌then◌else◌,
}
use fraudstream.Processing.Geolocation.{
  Text, split_on, join, first, set_host, same_text, subnet_to_ip,
}

-- The character does not occur.
abbrev pub IsWithout : ℕ → Text → Type 0
IsWithout c [] = Unit {0}
IsWithout c (d ∷ s) = ((d == c) ≡ false) × IsWithout c s

split_on_last : (c : ℕ) (s : Text) → IsWithout c s → split_on c s ≡ s ∷ []
unfolding split_on
split_on_last c [] h = refl
split_on_last c (d ∷ s) h = ground (arith, h.0, split_on_last c s h.1)

split_on-cons :
    (c : ℕ) (s : Text) → (part : Text) × (parts : List Text) × (split_on c s ≡ part ∷ parts)
unfolding split_on
split_on-cons c [] = ([], [], refl)
split_on-cons c (d ∷ s) =
    let (part, parts, e) = split_on-cons c s in
    elim (Bool-cases (d == c)) [
      | inl same ↦ ([], part ∷ parts, ground (arith, e, same))
      | inr differs ↦ (d ∷ part, parts, ground (arith, e, differs))
    ]

split_on-append : (c : ℕ) (s t : Text) → IsWithout c s → split_on c (s ++ c ∷ t) ≡ s ∷ split_on c t
unfolding split_on
split_on-append c [] t h = let (part, parts, e) = split_on-cons c t in ground (arith, e)
split_on-append c (d ∷ s) t h = ground (arith, h.0, split_on-append c s t h.1)

IsWithout-append : (c : ℕ) (s t : Text) → IsWithout c s → IsWithout c t → IsWithout c (s ++ t)
IsWithout-append c [] t h k = k
IsWithout-append c (d ∷ s) t h k = (h.0, IsWithout-append c s t h.1 k)

-- a.b.c.d
abbrev pub dotted : Text → Text → Text → Text → Text
dotted a b c d = a ++ b'.' ∷ (b ++ b'.' ∷ (c ++ b'.' ∷ d))

abbrev pub IsPart : Text → Type 0
IsPart s = IsWithout b'.' s × IsWithout b'/' s

split_on-dotted :
    (a b c d : Text)
    → IsPart a
    → IsPart b
    → IsPart c
    → IsPart d
    → split_on b'.' (dotted a b c d) ≡ a ∷ b ∷ c ∷ d ∷ []
split_on-dotted a b c d ha hb hc hd = ground (
  arith,
  split_on-append b'.' a (b ++ b'.' ∷ (c ++ b'.' ∷ d)) ha.0,
  split_on-append b'.' b (c ++ b'.' ∷ d) hb.0,
  split_on-append b'.' c d hc.0,
  split_on_last b'.' d hd.0,
)

dotted-IsWithout :
    (a b c d : Text) → IsPart a → IsPart b → IsPart c → IsPart d → IsWithout b'/' (dotted a b c d)
dotted-IsWithout a b c d ha hb hc hd =
    IsWithout-append b'/' a _ ha.1
      (refl, IsWithout-append b'/' b _ hb.1 (refl, IsWithout-append b'/' c _ hc.1 (refl, hd.1)))

-- A subnet a.b.c.0, with a prefix length or without one, is looked up by its host a.b.c.1, and any other
-- address a.b.c.d by itself.
pub subnet_to_ip-dotted :
    (a b c d prefix : Text)
    → IsPart a
    → IsPart b
    → IsPart c
    → IsPart d
    → let host = dotted a b c (if same_text d (b'0' ∷ []) then b'1' ∷ [] else d) in
      (subnet_to_ip (dotted a b c d) ≡ host)
      × (subnet_to_ip (dotted a b c d ++ b'/' ∷ prefix) ≡ host)
unfolding subnet_to_ip set_host join
subnet_to_ip-dotted a b c d prefix ha hb hc hd =
    let whole = dotted-IsWithout a b c d ha hb hc hd in
    let parts = split_on-dotted a b c d ha hb hc hd in
    let plain : first (split_on b'/' (dotted a b c d)) ≡ dotted a b c d =
      ap first (split_on_last b'/' (dotted a b c d) whole) in
    let with_prefix : first (split_on b'/' (dotted a b c d ++ b'/' ∷ prefix)) ≡ dotted a b c d =
      ap first (split_on-append b'/' (dotted a b c d) prefix whole) in
    (rw (plain, parts) refl, rw (with_prefix, parts) refl)
