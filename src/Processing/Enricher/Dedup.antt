-- ===== src/Processing/Enricher/Dedup.antt =====
-- pipelines/processing/operators/enricher.py: TransactionDedup. The keyed state of the operator is a
-- dict from transaction ids to the timestamps that were written, with the clock at the writing. Flink
-- gives no value that was written 48 h ago or earlier; reading does not renew it (OnCreateAndWrite).
pub mod Spacing
use fraudstream.Prelude.{
  ℕ, ◌+◌, ◌*◌, Bool, true, false, String, List, [], ◌∷◌, Option, none, some, ltb, if◌then◌else◌,
}
use fraudstream.Prelude.Int.{ℤ}
use fraudstream.Prelude.Equality.{◌==◌, string_eq}
use fraudstream.Prelude.Dict.{Dict, get, put}

-- Time.hours(48), in milliseconds
abbrev pub ttl_ms : ℕ
ttl_ms = 48 * 3600 * 1000

-- A value of the state, and the clock when it was written.
pub record Stamp : Type 0 where
  pub seen_at : ℤ
  pub written : ℕ

abbrev pub Seen : Type 0
Seen = Dict String Stamp

-- A transaction's id, the timestamp of its event, and the clock when it is processed.
pub record Arrival : Type 0 where
  pub txn_id : String
  pub timestamp : ℤ
  pub clock : ℕ

-- self._seen.value() is not None
unfoldable pub is_seen : ℕ → Option Stamp → Bool
is_seen clock none = false
is_seen clock (some stamp) = ltb clock (stamp.written + ttl_ms)

-- process_element: the new state, and whether the transaction is let through.
unfoldable pub process_element : Arrival → Seen → Seen × Bool
unfolding is_seen
process_element a seen =
    if is_seen a.clock (get a.txn_id seen)
    then (seen, false)
    else (put a.txn_id (record { seen_at = a.timestamp; written = a.clock }) seen, true)

-- The transactions that the operator lets through, in order.
unfoldable pub let_through : List Arrival → Seen → List Arrival
unfolding process_element
let_through [] seen = []
let_through (a ∷ arrivals) seen =
    let (seen', kept) = process_element a seen in
    let rest = let_through arrivals seen' in if kept then a ∷ rest else rest

-- process_element_pure, whose dict keeps its values for ever
unfoldable pub process_element_pure : String → ℤ → Dict String ℤ → Dict String ℤ × Bool
unfolding put
process_element_pure txn_id event_time_ms seen = elim (get txn_id seen) [
  | some t ↦ (seen, false)
  | none ↦ (put txn_id event_time_ms seen, true)
]
