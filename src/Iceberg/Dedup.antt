-- ===== src/Iceberg/Dedup.antt =====
-- The deduplication of a batch (pipelines/shared/iceberg_sink_base.py, _deduplicate).
use fraudstream.Prelude.{
  ℕ, suc, ◌≡◌, refl, String, Bool, false, ◌||◌, List, [], ◌∷◌, ◌++◌, arith, if◌then◌else◌,
}
use fraudstream.Prelude.Equality.{◌==◌, string_eq}
use text.Mathlib.TextEquality.{eq_iff}
use fraudstream.Iceberg.{Row, id_or, is_seen, dedup_from, deduplicate}

abbrev pub occurs : String → List Row → Bool
occurs k [] = false
occurs k (r ∷ rows) = id_or "" r == k || occurs k rows

abbrev pub count : String → List Row → ℕ
count k [] = 0
count k (r ∷ rows) = let rest = count k rows in if id_or "" r == k then suc rest else rest

count-dedup_from :
    (k : String) (seen : List String) (rows : List Row)
    → count k (dedup_from seen rows)
      ≡ (if is_seen k seen then 0 else if occurs k rows then 1 else 0)
unfolding dedup_from is_seen
count-dedup_from k seen [] = ground arith
count-dedup_from k seen (r ∷ rows) = ground (
  arith,
  eq_iff (id_or "" r) k,
  count-dedup_from k seen rows,
  count-dedup_from k (id_or "" r ∷ seen) rows,
)

-- Each transaction id of the batch is kept exactly once, and no other is there.
pub count-deduplicate :
    (k : String) (rows : List Row) → count k (deduplicate rows) ≡ (if occurs k rows then 1 else 0)
unfolding deduplicate
count-deduplicate k rows = count-dedup_from k [] rows

occurs-dedup_from :
    (k : String) (seen : List String) (rows : List Row)
    → (is_seen k seen || occurs k (dedup_from seen rows)) ≡ (is_seen k seen || occurs k rows)
unfolding dedup_from is_seen
occurs-dedup_from k seen [] = refl
occurs-dedup_from k seen (r ∷ rows) = ground (
  arith,
  eq_iff (id_or "" r) k,
  occurs-dedup_from k seen rows,
  occurs-dedup_from k (id_or "" r ∷ seen) rows,
)

pub occurs-deduplicate :
    (k : String) (rows : List Row) → occurs k (deduplicate rows) ≡ occurs k rows
unfolding deduplicate
occurs-deduplicate k rows = occurs-dedup_from k [] rows

pub occurs-append :
    (k : String) (rows more : List Row) → occurs k (rows ++ more) ≡ (occurs k rows || occurs k more)
occurs-append k [] more = refl
occurs-append k (r ∷ rows) more = ground (arith, occurs-append k rows more)
