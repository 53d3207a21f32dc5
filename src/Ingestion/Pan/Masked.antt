-- ===== src/Ingestion/Pan/Masked.antt =====
-- What a masked number shows (pipelines/ingestion/shared/pii_masker/masker.py).
use fraudstream.Prelude.{
  ℕ, ◌-◌, ◌≤◌, ◌<◌, ◌≡◌, ◌⊎◌, refl, ap, ◌∙◌, ◌&&◌, List, [], ◌∷◌, ◌++◌, Option, some, arith, ltb,
  leb, length, length-append, length-take, length-drop, length-replicate, take, drop, replicate,
  get_elem?, get_elem?-append, get_elem?-take, get_elem?-drop, get_elem?-replicate, if◌then◌else◌,
}
use fraudstream.Prelude.Results.{ok}
use fraudstream.Ingestion.Pan.{
  Unicode, MaskingConfig, MaskedPan, star, display, strip, raw_pan, mask,
}

abbrev parts_of : List ℕ → MaskedPan
parts_of digits = record {
  bin6 = take 6 digits;
  last4 = drop (length digits - 4) digits;
  length_of = length digits;
}

-- The character at place i of what is displayed: the middle is hidden.
abbrev pub shown_at : List ℕ → ℕ → Option ℕ
shown_at digits i = if leb 6 i && ltb i (length digits - 4) then some star else get_elem? digits i

length-display-parts_of : (d : List ℕ) → 10 ≤ length d → length (display (parts_of d)) ≡ length d
unfolding display
length-display-parts_of d h = omega (
  arith,
  length-append (take 6 d) (replicate (length d - 10) star ++ drop (length d - 4) d),
  length-append (replicate (length d - 10) star) (drop (length d - 4) d),
  length-take 6 d,
  length-drop (length d - 4) d,
  length-replicate (length d - 10) star,
)

display-parts_of :
    (d : List ℕ) (i : ℕ)
    → 10 ≤ length d
    → i < length d
    → get_elem? (display (parts_of d)) i ≡ shown_at d i
unfolding display
display-parts_of d i h k =
    let stars = replicate (length d - 10) star in
    let tail = drop (length d - 4) d in
    ground (
      arith,
      get_elem?-append (take 6 d) (stars ++ tail) i 6,
      length-take 6 d,
      get_elem?-append stars tail (i - 6) (length d - 10),
      length-replicate (length d - 10) star,
      get_elem?-take 6 d i,
      get_elem?-replicate (length d - 10) star (i - 6),
      get_elem?-drop (length d - 4) d (i - 6 - (length d - 10)) i,
    )

module _ (u : Unicode) where
  strip_idem : (s : List ℕ) → strip u (strip u s) ≡ strip u s
  unfolding strip
  strip_idem [] = refl
  strip_idem (c ∷ s) = ground (arith, strip_idem s)

  mask-eq-ok :
      (cfg : MaskingConfig) (d : List ℕ) (p : MaskedPan)
      → strip u d ≡ d
      → mask u cfg d ≡ ok p
      → (p ≡ parts_of d) × ((length d ≡ 15) ⊎ (length d ≡ 16))
  unfolding mask
  mask-eq-ok cfg d p e h = ground arith

  -- A number that is accepted is displayed with as many characters as it has digits, of 15 or 16:
  -- its first six and last four in their places, and an asterisk at every place between.
  pub display-mask :
      (cfg : MaskingConfig) (pan : List ℕ) (p : MaskedPan) (i : ℕ)
      → mask u cfg (raw_pan u pan) ≡ ok p
      → i < length (raw_pan u pan)
      → (length (display p) ≡ length (raw_pan u pan))
        × (get_elem? (display p) i ≡ shown_at (raw_pan u pan) i)
  unfolding raw_pan
  display-mask cfg pan p i h k =
      let d = strip u pan in
      let (e, n) = mask-eq-ok cfg d p (strip_idem pan) h in
      let long : 10 ≤ length d = omega arith in
      (
        ap (λ q. length (display q)) e ∙ length-display-parts_of d long,
        ap (λ q. get_elem? (display q) i) e ∙ display-parts_of d i long k,
      )
