-- ===== src/Processing/Geolocation/Cached.antt =====
-- The cache of locations changes no result and stays within its bound
-- (pipelines/processing/operators/geolocation.py).
use fraudstream.Prelude.{
  ℕ, zero, suc, ◌-◌, ◌≤◌, ◌≡◌, refl, ap, true, List, [], ◌∷◌, Option, some, arith, length,
  length-take, take, map, Option-cases, Bool-cases, inl, inr,
}
use fraudstream.Processing.Geolocation.{
  Text, Geo, Reader, Cache, same_text, do_lookup, find, without, maxsize, lookup, lookup_all,
}

same_text-eq : (s t : Text) → same_text s t ≡ true → s ≡ t
same_text-eq [] [] h = refl
same_text-eq [] (d ∷ t) h = absurd (cc)
same_text-eq (c ∷ s) [] h = absurd (cc)
same_text-eq (c ∷ s) (d ∷ t) h =
    let head : c ≡ d = ground arith in
    let tail : s ≡ t = same_text-eq s t (ground arith) in rw (head, tail) refl

length-without : (s : Text) (cache : Cache) → length (without s cache) ≤ length cache
unfolding without
length-without s [] = omega arith
length-without s ((t, g) ∷ cache) = ground (arith, length-without s cache)

-- A hit takes at least one entry out.
length-without-find :
    (s : Text) (cache : Cache) (g : Geo)
    → find s cache ≡ some g
    → suc (length (without s cache)) ≤ length cache
unfolding without find
length-without-find s [] g h = absurd (cc)
length-without-find s ((t, f) ∷ cache) g h =
    ground (arith, h, length-without s cache, length-without-find s cache g)

module _ (reader : Option Reader) where
  -- Every entry is what a lookup of its subnet gives.
  abbrev AreRight : Cache → Type 0
  AreRight [] = Unit {0}
  AreRight ((t, g) ∷ cache) = (g ≡ do_lookup reader t) × AreRight cache

  find-AreRight :
      (s : Text) (cache : Cache) (g : Geo)
      → AreRight cache
      → find s cache ≡ some g
      → g ≡ do_lookup reader s
  unfolding find
  find-AreRight s [] g right h = absurd (cc)
  find-AreRight s ((t, f) ∷ cache) g right h = elim (Bool-cases (same_text t s)) [
    | inl same ↦ ground (arith, h, same, right.0, ap (do_lookup reader) (same_text-eq t s same))
    | inr differs ↦ find-AreRight s cache g right.1 (ground (arith, h, differs))
  ]

  without-AreRight : (s : Text) (cache : Cache) → AreRight cache → AreRight (without s cache)
  unfolding without
  without-AreRight s [] right = tt
  without-AreRight s ((t, g) ∷ cache) right = elim (Bool-cases (same_text t s)) [
    | inl same ↦ rw same (without-AreRight s cache right.1)
    | inr differs ↦ rw differs (right.0, without-AreRight s cache right.1)
  ]

  take-AreRight : (n : ℕ) (cache : Cache) → AreRight cache → AreRight (take n cache)
  take-AreRight zero cache right = tt
  take-AreRight (suc n) [] right = tt
  take-AreRight (suc n) ((t, g) ∷ cache) right = (right.0, take-AreRight n cache right.1)

  IsFine : Cache → Type 0
  IsFine cache = AreRight cache × (length cache ≤ maxsize)

  lookup-IsFine :
      (s : Text) (cache : Cache)
      → IsFine cache
      → ((lookup reader s cache).0 ≡ do_lookup reader s) × IsFine (lookup reader s cache).1
  unfolding lookup IsFine
  lookup-IsFine s cache fine = elim (Option-cases (find s cache)) [
    | inl n ↦
        let g = do_lookup reader s in
        let after : lookup reader s cache ≡ (g, (s, g) ∷ take (maxsize - 1) cache) =
          ground (arith, n) in
        rw after (
          refl,
          (
            (refl, take-AreRight (maxsize - 1) cache fine.0),
            omega (arith, length-take (maxsize - 1) cache),
          ),
        )
    | inr (g, e) ↦
        let right = find-AreRight s cache g fine.0 e in
        let after : lookup reader s cache ≡ (g, (s, g) ∷ without s cache) = ground (arith, e) in
        rw after (
          right,
          (
            (right, without-AreRight s cache fine.0),
            omega (arith, length-without-find s cache g e, fine.1),
          ),
        )
  ]

  lookup_all-IsFine :
      (subnets : List Text) (cache : Cache)
      → IsFine cache
      → ((lookup_all reader subnets cache).0 ≡ map (do_lookup reader) subnets)
        × IsFine (lookup_all reader subnets cache).1
  unfolding lookup_all
  lookup_all-IsFine [] cache fine = (refl, fine)
  lookup_all-IsFine (s ∷ subnets) cache fine =
      let one = lookup-IsFine s cache fine in
      let rest = lookup_all-IsFine subnets (lookup reader s cache).1 one.1 in
      (rw (one.0, rest.0) refl, rest.1)

  -- From an empty cache every transaction gets the location that a lookup with no cache gives, in order,
  -- and the cache never holds more than its maximum.
  pub lookup_all-eq-do_lookup :
      (subnets : List Text)
      → ((lookup_all reader subnets []).0 ≡ map (do_lookup reader) subnets)
        × (length (lookup_all reader subnets []).1 ≤ maxsize)
  unfolding IsFine
  lookup_all-eq-do_lookup subnets =
      let fine = lookup_all-IsFine subnets [] (tt, omega arith) in (fine.0, fine.1.1)
