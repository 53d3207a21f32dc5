-- ===== src/Processing/Enricher/Dedup/Spacing.antt =====
-- Which arrivals of a transaction are let through (pipelines/processing/operators/enricher.py).
use fraudstream.Prelude.{
  ℕ, ◌+◌, ◌≡◌, refl, Bool, true, false, ◌&&◌, ◌||◌, String, List, [], ◌∷◌, Option, none, some,
  arith, ltb, leb, if◌then◌else◌,
}
use fraudstream.Prelude.Equality.{◌==◌, string_eq}
use fraudstream.Prelude.Dict.{get, put, get-put}
use text.Mathlib.TextEquality.{eq_iff}
use fraudstream.Processing.Enricher.Dedup.{ttl_ms, Stamp, Seen, Arrival, is_seen, let_through}

-- The clock never goes back.
abbrev pub never_back : ℕ → List Arrival → Bool
never_back from [] = true
never_back from (a ∷ arrivals) = leb from a.clock && never_back a.clock arrivals

-- The clocks at the arrivals of the transaction k.
abbrev pub clocks_of : String → List Arrival → List ℕ
clocks_of k [] = []
clocks_of k (a ∷ arrivals) =
    let rest = clocks_of k arrivals in if a.txn_id == k then a.clock ∷ rest else rest

-- Each is 48 h or more after the one before, the first after `last` too.
abbrev pub are_spaced : Option ℕ → List ℕ → Bool
are_spaced last [] = true
are_spaced none (t ∷ times) = are_spaced (some t) times
are_spaced (some last) (t ∷ times) = leb (last + ttl_ms) t && are_spaced (some t) times

-- t is less than 48 h after one of the times, or at it.
abbrev pub is_covered : List ℕ → ℕ → Bool
is_covered [] t = false
is_covered (l ∷ times) t = (leb l t && ltb t (l + ttl_ms)) || is_covered times t

abbrev pub are_covered : List ℕ → List ℕ → Bool
are_covered times [] = true
are_covered times (t ∷ ts) = is_covered times t && are_covered times ts

abbrev last_of : Option Stamp → Option ℕ
last_of none = none
last_of (some stamp) = some stamp.written

abbrev written_of : Option Stamp → ℕ
written_of none = 0
written_of (some stamp) = stamp.written

spaced-let_through :
    (k : String) (arrivals : List Arrival) (seen : Seen)
    → are_spaced (last_of (get k seen)) (clocks_of k (let_through arrivals seen)) ≡ true
unfolding let_through is_seen
spaced-let_through k [] seen = ground arith
spaced-let_through k (a ∷ arrivals) seen =
    let stamp : Stamp = record { seen_at = a.timestamp; written = a.clock } in
    ground (
      arith,
      eq_iff a.txn_id k,
      spaced-let_through k arrivals seen,
      spaced-let_through k arrivals (put a.txn_id stamp seen),
      get-put a.txn_id k stamp seen,
    )

are_covered_more :
    (l : ℕ) (times ts : List ℕ) → are_covered times ts ≡ true → are_covered (l ∷ times) ts ≡ true
are_covered_more l times [] h = refl
are_covered_more l times (t ∷ ts) h = ground (arith, are_covered_more l times ts)

-- The last time before, if there is one, and the times.
abbrev from_last : Option ℕ → List ℕ → List ℕ
from_last none times = times
from_last (some last) times = last ∷ times

abbrev not_after : Option ℕ → ℕ → Bool
not_after none t = true
not_after (some last) t = leb last t

covered-let_through :
    (k : String) (from : ℕ) (arrivals : List Arrival) (seen : Seen)
    → never_back from arrivals ≡ true
    → not_after (last_of (get k seen)) from ≡ true
    → are_covered
        (from_last (last_of (get k seen)) (clocks_of k (let_through arrivals seen)))
        (clocks_of k arrivals)
      ≡ true
unfolding let_through is_seen
covered-let_through k from [] seen h past = refl
covered-let_through k from (a ∷ arrivals) seen h past =
    let stamp : Stamp = record { seen_at = a.timestamp; written = a.clock } in
    let later = put a.txn_id stamp seen in
    ground (
      arith,
      eq_iff a.txn_id k,
      covered-let_through k a.clock arrivals seen,
      covered-let_through k a.clock arrivals later,
      are_covered_more a.clock (clocks_of k (let_through arrivals seen)) (clocks_of k arrivals),
      are_covered_more (written_of (get k seen))
          (a.clock ∷ clocks_of k (let_through arrivals later)) (clocks_of k arrivals),
      get-put a.txn_id k stamp seen,
    )

-- From an empty state, while the clock never goes back: two arrivals of a transaction that are let
-- through are 48 h apart or more, and at each of its arrivals, one was let through less than 48 h
-- before, or this one is.
pub let_through-spaced :
    (k : String) (arrivals : List Arrival)
    → never_back 0 arrivals ≡ true
    → (are_spaced none (clocks_of k (let_through arrivals [])) ≡ true)
      × (are_covered (clocks_of k (let_through arrivals [])) (clocks_of k arrivals) ≡ true)
unfolding get
let_through-spaced k arrivals h =
    (spaced-let_through k arrivals [], covered-let_through k 0 arrivals [] h refl)
