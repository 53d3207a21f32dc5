-- ===== src/Processing/Velocity.antt =====
-- pipelines/processing/operators/velocity.py: per-account counts and sums over minute buckets.
-- One value of `State` is the keyed state of one account. Times are epoch milliseconds as Python
-- ints, amounts are Decimals in units of 1/10000 (the schema's decimal(18, 4)), whose sums are
-- exact within Decimal's 28 digits.
pub mod Totals
pub mod History
pub mod Refines
pub mod Nesting
use fraudstream.Prelude.{
  ℕ, ◌+◌, ◌*◌, String, Bool, true, false, not, ◌&&◌, List, [], ◌∷◌, ◌++◌, Option, none, some,
  if◌then◌else◌,
}
use fraudstream.Prelude.Int.{ℤ, pos, negsuc, ◌+ℤ◌, ◌-ℤ◌, ◌==ℤ◌, ltb_ℤ, leb_ℤ, floor_div}
use fraudstream.Prelude.Equality.{int_eq}
use fraudstream.Prelude.Dict.{Dict, keys, get, put, remove}
use fraudstream.Processing.Dlq.{DlqRecord, Ambient, build_dlq_record, Message}

-- _RETENTION_MS
abbrev pub retention_ms : ℕ
retention_ms = (24 * 3600 + 41) * 1000

-- _IDLE_TTL_MS
abbrev pub idle_ttl_ms : ℕ
idle_ttl_ms = 7 * 24 * 3600 * 1000

-- _NO_WATERMARK
abbrev pub no_watermark : ℤ
no_watermark = negsuc 9223372036854775807

abbrev pub minute_ms : ℕ
minute_ms = 60000

pub record Total : Type 0 where
  pub count : ℕ
  pub amount : ℤ

abbrev pub Buckets : Type 0
Buckets = Dict ℤ Total

pub record VelocityFields : Type 0 where
  pub last_1m : Total
  pub last_5m : Total
  pub last_1h : Total
  pub last_24h : Total

abbrev pub no_total : Total
no_total = record { count = 0; amount = pos 0 }

unfoldable pub add_total : Total → Total → Total
unfolding ◌+ℤ◌
add_total s t = record { count = s.count + t.count; amount = s.amount +ℤ t.amount }

-- The inner loop of _compute_velocity: for bk, (c, a) in all_buckets.items()
unfoldable pub sum_since : ℤ → Total → Buckets → Total
sum_since cutoff acc [] = acc
sum_since cutoff acc ((bk, t) ∷ buckets) =
    sum_since cutoff (if leb_ℤ cutoff bk then add_total acc t else acc) buckets

unfoldable pub window : ℕ → Buckets → ℤ → Total
unfolding sum_since
window mins buckets current_bucket = sum_since (current_bucket -ℤ pos mins) no_total buckets

-- _compute_velocity, and _compute_velocity_from_dict: the loop over _WINDOWS
unfoldable pub compute_velocity : Buckets → ℤ → VelocityFields
unfolding window add_total
compute_velocity buckets current_bucket = record {
  last_1m = window 1 buckets current_bucket;
  last_5m = window 5 buckets current_bucket;
  last_1h = window 60 buckets current_bucket;
  last_24h = window 1440 buckets current_bucket;
}

abbrev pub bucket_of : ℤ → ℤ
bucket_of event_time_ms = floor_div event_time_ms minute_ms

abbrev pub or_no_total : Option Total → Total
or_no_total none = no_total
or_no_total (some t) = t

abbrev pub one : ℤ → Total
one amount = record { count = 1; amount = amount }

-- self._buckets.put(bucket_key, (existing[0] + 1, existing[1] + amount))
unfoldable pub add_event : ℤ → ℤ → Buckets → Buckets
unfolding get put
add_event bucket_key amount buckets =
    put bucket_key (add_total (or_no_total (get bucket_key buckets)) (one amount)) buckets

-- process_element_pure
unfoldable pub process_element_pure : ℤ → ℤ → Buckets → Buckets × VelocityFields
unfolding add_event add_total compute_velocity
process_element_pure event_time_ms amount buckets =
    let bucket_key = bucket_of event_time_ms in
    let buckets' = add_event bucket_key amount buckets in
    (buckets', compute_velocity buckets' bucket_key)

pub record Event : Type 0 where
  pub transaction_id : Option String
  pub amount : ℤ
  pub event_time_ms : ℤ

pub record State : Type 0 where
  pub buckets : Buckets
  pub timers : List ℤ

pub data Output : Type 0 where
  -- ctx.output(LATE_DLQ_TAG, dlq_record)
  rejected : DlqRecord → Output
  -- yield txn, velocity; whether the event counted as late within the window
  emitted : VelocityFields → Bool → Output

-- The guard of FR-014.
abbrev pub is_beyond : ℕ → ℤ → ℤ → Bool
is_beyond allowed_lateness_ms watermark event_time_ms =
    not (watermark ==ℤ no_watermark) && ltb_ℤ event_time_ms (watermark -ℤ pos allowed_lateness_ms)

unfoldable pub late_record : Ambient → ℕ → ℤ → Event → DlqRecord
unfolding build_dlq_record
late_record ambient allowed_lateness_ms watermark txn =
    build_dlq_record ambient "txn.api" 0 0 [] "LATE_EVENT_BEYOND_ALLOWED_LATENESS"
      (Message.late txn.event_time_ms (watermark -ℤ txn.event_time_ms) (pos allowed_lateness_ms))
      txn.transaction_id (some watermark) (some txn.event_time_ms) 0

accept : ℤ → Event → State → State × Output
unfolding process_element_pure
accept watermark txn s =
    let (buckets', velocity) = process_element_pure txn.event_time_ms txn.amount s.buckets in
    (
      record s {
        buckets = buckets';
        timers =
            s.timers
            ++ (txn.event_time_ms +ℤ pos retention_ms)
              ∷ (txn.event_time_ms +ℤ pos idle_ttl_ms)
              ∷ [];
      },
      emitted velocity (not (watermark ==ℤ no_watermark) && ltb_ℤ txn.event_time_ms watermark),
    )

-- process_element
unfoldable pub process_element : Ambient → ℕ → ℤ → Event → State → State × Output
unfolding accept
process_element ambient allowed_lateness_ms watermark txn s =
    if is_beyond allowed_lateness_ms watermark txn.event_time_ms
    then (s, rejected (late_record ambient allowed_lateness_ms watermark txn))
    else accept watermark txn s

-- [bk for bk in self._buckets.keys() if bk < cutoff_bucket]
abbrev pub stale : ℤ → List ℤ → List ℤ
stale cutoff [] = []
stale cutoff (bk ∷ bks) = let rest = stale cutoff bks in if ltb_ℤ bk cutoff then bk ∷ rest else rest

unfoldable pub remove_all : List ℤ → Buckets → Buckets
unfolding remove
remove_all [] buckets = buckets
remove_all (bk ∷ bks) buckets = remove_all bks (remove bk buckets)

abbrev pub timer_cutoff : ℤ → ℤ
timer_cutoff timestamp = floor_div (timestamp -ℤ pos retention_ms) minute_ms

-- on_timer; clearing a map that is empty changes nothing
unfoldable pub on_timer : ℤ → State → State
unfolding remove_all
on_timer timestamp s = record s {
  buckets = remove_all (stale (timer_cutoff timestamp) (keys s.buckets)) s.buckets;
}
