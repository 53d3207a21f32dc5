-- ===== src/Processing/Velocity/Totals.antt =====
-- Sums over buckets without the accumulator, and how writes and removals change them
-- (pipelines/processing/operators/velocity.py).
use fraudstream.Prelude.{◌≡◌, refl, true, List, [], ◌∷◌, arith, if◌then◌else◌}
use fraudstream.Prelude.Int.{ℤ, ltb_ℤ, leb_ℤ, ==ℤ_iff, +ℤ_comm, +ℤ_assoc}
use fraudstream.Prelude.Equality.{int_eq}
use fraudstream.Prelude.Dict.{remove}
use fraudstream.Processing.Velocity.{
  Total, Buckets, no_total, add_total, sum_since, add_event, one, stale, remove_all,
}

pub add_total_comm : (s t : Total) → add_total s t ≡ add_total t s
unfolding add_total
add_total_comm s t = ground (arith, +ℤ_comm s.amount t.amount)

pub add_total_assoc : (s t u : Total) → add_total (add_total s t) u ≡ add_total s (add_total t u)
unfolding add_total
add_total_assoc s t u = ground (arith, +ℤ_assoc s.amount t.amount u.amount)

pub no_total-add : (t : Total) → add_total no_total t ≡ t
unfolding add_total
no_total-add t = ground arith

-- The buckets from `cutoff` on, added up.
unfoldable pub buckets_total : ℤ → Buckets → Total
buckets_total cutoff [] = no_total
buckets_total cutoff ((bk, t) ∷ buckets) =
    let rest = buckets_total cutoff buckets in if leb_ℤ cutoff bk then add_total t rest else rest

pub sum_since-eq :
    (cutoff : ℤ) (acc : Total) (buckets : Buckets)
    → sum_since cutoff acc buckets ≡ add_total acc (buckets_total cutoff buckets)
unfolding buckets_total sum_since
sum_since-eq cutoff acc [] = ground (arith, no_total-add acc, add_total_comm acc no_total)
sum_since-eq cutoff acc ((bk, t) ∷ buckets) = ground (
  arith,
  sum_since-eq cutoff acc buckets,
  sum_since-eq cutoff (add_total acc t) buckets,
  add_total_assoc acc t (buckets_total cutoff buckets),
)

-- One more event adds itself to the windows that reach back to its bucket, and to no other.
pub buckets_total-add_event :
    (cutoff bucket_key amount : ℤ) (buckets : Buckets)
    → buckets_total cutoff (add_event bucket_key amount buckets) ≡ (
        if leb_ℤ cutoff bucket_key
        then add_total (one amount) (buckets_total cutoff buckets)
        else buckets_total cutoff buckets)
unfolding buckets_total add_event
buckets_total-add_event cutoff bucket_key amount [] =
    ground (arith, no_total-add (one amount), add_total_comm (one amount) no_total)
buckets_total-add_event cutoff bucket_key amount ((bk, t) ∷ buckets) =
    let rest = buckets_total cutoff buckets in
    ground (
      arith,
      ==ℤ_iff bk bucket_key,
      buckets_total-add_event cutoff bucket_key amount buckets,
      add_total_comm t (one amount),
      add_total_assoc (one amount) t rest,
      add_total_assoc t (one amount) rest,
    )

-- Removing buckets older than the cutoff of a window leaves the window's total alone.
buckets_total-remove :
    (cutoff bk : ℤ) (buckets : Buckets)
    → ltb_ℤ bk cutoff ≡ true
    → buckets_total cutoff (remove bk buckets) ≡ buckets_total cutoff buckets
unfolding buckets_total remove
buckets_total-remove cutoff bk [] h = refl
buckets_total-remove cutoff bk ((i, t) ∷ buckets) h =
    ground (arith, ==ℤ_iff i bk, buckets_total-remove cutoff bk buckets)

pub buckets_total-remove_all :
    (oldest cutoff : ℤ) (bks : List ℤ) (buckets : Buckets)
    → leb_ℤ oldest cutoff ≡ true
    → buckets_total cutoff (remove_all (stale oldest bks) buckets) ≡ buckets_total cutoff buckets
unfolding remove_all
buckets_total-remove_all oldest cutoff [] buckets h = refl
buckets_total-remove_all oldest cutoff (bk ∷ bks) buckets h = ground (
  arith,
  buckets_total-remove_all oldest cutoff bks buckets,
  buckets_total-remove_all oldest cutoff bks (remove bk buckets),
  buckets_total-remove cutoff bk buckets,
)
