-- ===== src/Processing/Velocity/Nesting.antt =====
-- The windows are nested (specs/002-flink-stream-processor/data-model.md: vel_count_1m ≤
-- vel_count_5m ≤ vel_count_1h ≤ vel_count_24h).
use fraudstream.Prelude.{ℕ, ◌≤◌, ◌≡◌, true, [], ◌∷◌, arith}
use fraudstream.Prelude.Int.{ℤ, pos, ◌-ℤ◌, leb_ℤ}
use fraudstream.Processing.Velocity.{
  Buckets, no_total, add_total, window, process_element_pure, add_event, compute_velocity,
  VelocityFields, bucket_of,
}
use fraudstream.Processing.Velocity.Totals.{buckets_total, sum_since-eq, no_total-add}

buckets_total_mono :
    (older newer : ℤ) (buckets : Buckets)
    → leb_ℤ older newer ≡ true
    → (buckets_total newer buckets).count ≤ (buckets_total older buckets).count
unfolding buckets_total add_total
buckets_total_mono older newer [] h = omega arith
buckets_total_mono older newer ((bk, t) ∷ buckets) h =
    ground (arith, buckets_total_mono older newer buckets)

window_mono :
    (short long : ℕ) (buckets : Buckets) (minute : ℤ)
    → short ≤ long
    → (window short buckets minute).count ≤ (window long buckets minute).count
unfolding window ◌-ℤ◌
window_mono short long buckets minute h = ground (
  arith,
  sum_since-eq (minute -ℤ pos short) no_total buckets,
  sum_since-eq (minute -ℤ pos long) no_total buckets,
  no_total-add (buckets_total (minute -ℤ pos short) buckets),
  no_total-add (buckets_total (minute -ℤ pos long) buckets),
  buckets_total_mono (minute -ℤ pos long) (minute -ℤ pos short) buckets,
)

abbrev pub AreNested : VelocityFields → Type 0
AreNested v =
    (v.last_1m.count ≤ v.last_5m.count)
    × (v.last_5m.count ≤ v.last_1h.count)
    × (v.last_1h.count ≤ v.last_24h.count)

-- In every state, the counts of the four windows after an event do not fall from one window to the
-- next longer one.
pub process_element_pure-AreNested :
    (event_time_ms amount : ℤ) (buckets : Buckets)
    → AreNested (process_element_pure event_time_ms amount buckets).1
unfolding process_element_pure compute_velocity
process_element_pure-AreNested event_time_ms amount buckets =
    let minute = bucket_of event_time_ms in
    let after = add_event minute amount buckets in
    (
      window_mono 1 5 after minute (omega arith),
      window_mono 5 60 after minute (omega arith),
      window_mono 60 1440 after minute (omega arith),
    )
