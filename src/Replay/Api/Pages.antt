-- ===== src/Replay/Api/Pages.antt =====
-- The pages of the results of a replay job (pipelines/scoring/management_api.py).
use fraudstream.Prelude.{
  ℕ, zero, suc, ◌+◌, ◌-◌, ◌≤◌, ◌≡◌, refl, sym, ◌∙◌, List, [], ◌∷◌, ◌++◌, arith, leb, length, take,
  drop, take-nil, take-all, length-drop, Bool-cases, inl, inr,
}
use fraudstream.Prelude.Int.{pos, ◌+ℤ◌}
use fraudstream.Replay.Api.{page}

module _ {A : Type 0} where
  drop-nil : (n : ℕ) → drop {A = A} n [] ≡ []
  drop-nil zero = refl
  drop-nil (suc n) = refl

  take-drop-append : (i j : ℕ) (xs : List A) → take i xs ++ take j (drop i xs) ≡ take (i + j) xs
  take-drop-append zero j xs = let e : 0 + j ≡ j = omega arith in rw e refl
  take-drop-append (suc i) j [] = rw (take-nil {A = A} j) (sym (take-nil {A = A} (suc i + j)))
  take-drop-append (suc i) j (x ∷ xs) =
      let e : suc i + j ≡ suc (i + j) = omega arith in rw e (rw (take-drop-append i j xs) refl)

  drop-add : (i j : ℕ) (xs : List A) → drop (i + j) xs ≡ drop j (drop i xs)
  drop-add zero j xs = let e : 0 + j ≡ j = omega arith in rw e refl
  drop-add (suc i) j [] = rw (drop-nil (suc i + j)) (sym (drop-nil j))
  drop-add (suc i) j (x ∷ xs) =
      let e : suc i + j ≡ suc (i + j) = omega arith in rw e (drop-add i j xs)

  drop-all : (n : ℕ) (xs : List A) → length xs ≤ n → drop n xs ≡ []
  drop-all zero [] h = refl
  drop-all zero (x ∷ xs) h = absurd (omega arith)
  drop-all (suc n) [] h = refl
  drop-all (suc n) (x ∷ xs) h = drop-all n xs (omega arith)

  page-take :
      (offset limit : ℕ) (xs : List A)
      → page (pos offset) (pos limit) xs ≡ take limit (drop offset xs)
  unfolding page ◌+ℤ◌
  page-take offset limit xs =
      let n = length xs in
      elim (Bool-cases (leb offset n)) [
        | inr past ↦
            let none_left : drop offset xs ≡ [] = drop-all offset xs (ground arith) in
            ground (
              arith,
              past,
              none_left,
              drop-all n xs,
              take-nil {A = A} limit,
              take-nil {A = A} (n - n),
            )
        | inl within ↦ elim (Bool-cases (leb (offset + limit) n)) [
          | inl all ↦
              let width : offset + limit - offset ≡ limit = omega arith in
              ground (arith, within, all, width)
          | inr short ↦
              let left = drop offset xs in
              ground (
                arith,
                within,
                short,
                length-drop offset xs,
                take-all (n - offset) left,
                take-all limit left,
              )
        ]
      ]

  -- Pages with no negative numbers that follow each other are one page, and a page from 0 of at least as
  -- many results as there are is all of them.
  pub page-append :
      (offset limit more : ℕ) (xs : List A)
      → (page (pos offset) (pos limit) xs ++ page (pos (offset + limit)) (pos more) xs
          ≡ page (pos offset) (pos (limit + more)) xs)
        × (page (pos 0) (pos (length xs + more)) xs ≡ xs)
  page-append offset limit more xs = (
    rw
        (
          page-take offset limit xs,
          page-take (offset + limit) more xs,
          page-take offset (limit + more) xs,
          drop-add offset limit xs,
        )
        (take-drop-append limit more (drop offset xs)),
    page-take 0 (length xs + more) xs ∙ take-all (length xs + more) xs (omega arith),
  )
