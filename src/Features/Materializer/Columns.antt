-- ===== src/Features/Materializer/Columns.antt =====
-- The columns of a record (pipelines/processing/feature_materializer.py).
use fraudstream.Prelude.{
  ◌≡◌, refl, sym, ap, ◌∙◌, String, true, false, List, [], ◌∷◌, Option, none, some, arith,
  Option-cases, Bool-cases, inl, inr,
}
use text.Mathlib.TextEquality.{eq_iff}
use fraudstream.Prelude.Equality.{◌==◌, string_eq}
use fraudstream.Prelude.Dict.{get}
use fraudstream.Value.{Value, null, bool, num, str, truthy, is_none, get_value, Record}
use fraudstream.Features.{Kind, integer, real, words, flag}
use fraudstream.Features.Materializer.{
  Column, counted, amount, words_or_empty, truth, moment, extract, extract_all, or_zero,
}

-- The kind that the serving side reads a column as.
abbrev pub kind_of : Column → Kind
kind_of counted = integer
kind_of amount = real
kind_of words_or_empty = words
kind_of truth = flag
kind_of moment = integer

or_zero_again :
    (convert : Kind → Value → Option Value) (kind : Kind) (v : Value)
    → or_zero convert kind (or_zero convert kind v) ≡ or_zero convert kind v
or_zero_again convert integer v = ground arith
or_zero_again convert real v = ground arith
or_zero_again convert words v = ground arith
or_zero_again convert flag v = ground arith

given_words :
    (convert : Kind → Value → Option Value) (v : Value) → is_none (or_zero convert words v) ≡ false
given_words convert null = refl
given_words convert (bool b) = ground arith
given_words convert (num z) = ground arith
given_words convert (str s) = ground arith

module _ (convert : Kind → Value → Option Value) where
  -- A conversion gives no None, and what it gave is converted to itself.
  abbrev pub IsConversion : Type 0
  IsConversion =
      (kind : Kind) (v w : Value)
      → convert kind v ≡ some w
      → (is_none w ≡ false) × (convert kind (or_zero convert kind w) ≡ some w)

  -- A moment is there.
  abbrev pub IsThere : String → Column → Record → Type 0
  IsThere k moment r = truthy (get_value k r) ≡ true
  IsThere k counted r = Unit {0}
  IsThere k amount r = Unit {0}
  IsThere k words_or_empty r = Unit {0}
  IsThere k truth r = Unit {0}

  pub extract-kind :
      (k : String) (column : Column) (r : Record) (v : Value)
      → IsConversion
      → IsThere k column r
      → extract convert k column r ≡ some v
      → let kind = kind_of column in
        (is_none v ≡ false)
        × (convert kind (or_zero convert kind v)
            ≡ convert kind (or_zero convert kind (get_value k r)))
  unfolding extract
  extract-kind k counted r v c there h = let same = c integer _ v h in (same.0, same.1 ∙ sym h)
  extract-kind k amount r v c there h = let same = c real _ v h in (same.0, same.1 ∙ sym h)
  extract-kind k words_or_empty r v c there h =
      let e : or_zero convert words (get_value k r) ≡ v = ground (arith, h) in
      rw (← e) (
        given_words convert (get_value k r),
        ap (convert words) (or_zero_again convert words (get_value k r)),
      )
  extract-kind k truth r v c there h = let same = c flag _ v h in (same.0, same.1 ∙ sym h)
  extract-kind k moment r v c there h =
      let e : convert integer (get_value k r) ≡ some v = ground (arith, there, h) in
      let same = c integer (get_value k r) v e in (same.0, same.1 ∙ sym (ground (arith, there, e)))

  pub extract_all-none :
      (k : String) (columns : List (String × Column)) (r fields : Record)
      → get k columns ≡ none
      → extract_all convert columns r ≡ some fields
      → get k fields ≡ none
  unfolding get extract_all
  extract_all-none k [] r fields h e = ground (arith, e)
  extract_all-none k ((j, column) ∷ columns) r fields h e =
      elim (Option-cases (extract convert j column r)) [
        | inl n ↦ absurd (ground (arith, n, e))
        | inr (v, n) ↦ elim (Option-cases (extract_all convert columns r)) [
          | inl m ↦ absurd (ground (arith, n, m, e))
          | inr (rest, m) ↦ ground (arith, n, m, e, h, extract_all-none k columns r rest)
        ]
      ]

  -- Some columns can be extracted.
  pub extract_all-extract :
      (k : String) (column : Column) (columns : List (String × Column)) (r fields : Record)
      → get k columns ≡ some column
      → extract_all convert columns r ≡ some fields
      → (v : Value) × (extract convert k column r ≡ some v)
  unfolding get extract_all
  extract_all-extract k column [] r fields h e = absurd (cc)
  extract_all-extract k column ((j, other) ∷ columns) r fields h e =
      elim (Option-cases (extract convert j other r)) [
        | inl n ↦ absurd (ground (arith, n, e))
        | inr (v, n) ↦ elim (Option-cases (extract_all convert columns r)) [
          | inl m ↦ absurd (ground (arith, n, m, e))
          | inr (rest, m) ↦ elim (Bool-cases (j == k)) [
            | inl same ↦
                let names : j ≡ k = ground (arith, eq_iff j k, same) in
                let columns_same : other ≡ column = ground (arith, h, same) in
                (v, rw (← names, ← columns_same) n)
            | inr differs ↦
                extract_all-extract k column columns r rest (ground (arith, h, differs)) m
          ]
        ]
      ]
