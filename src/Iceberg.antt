-- ===== src/Iceberg.antt =====
-- The buffering Iceberg sinks: pipelines/shared/iceberg_sink_base.py,
-- pipelines/processing/operators/iceberg_sink.py and pipelines/scoring/sinks/iceberg_decisions.py.
-- They share the buffer, its deduplication and the two conditions for a flush, and differ in what
-- they do with a batch. Times are in ms (the source compares seconds).
pub mod Dedup
pub mod Buffer
pub mod Accounting
use fraudstream.Prelude.{
  ℕ, ◌+◌, String, Bool, true, false, not, ◌||◌, List, [], ◌∷◌, ◌++◌, map, Option, none, some, leb,
  length, if◌then◌else◌,
}
use fraudstream.Prelude.Int.{ℤ, pos, ◌-ℤ◌, leb_ℤ}
use fraudstream.Prelude.Equality.{◌==◌, string_eq}
use fraudstream.Value.{Record}

-- A buffered record: its transaction id, if it has one, and its other fields.
pub record Row : Type 0 where
  pub transaction_id : Option String
  pub fields : Record

-- record.get("transaction_id", default)
abbrev pub id_or : String → Row → String
id_or default r = elim r.transaction_id [ none ↦ default | some i ↦ i ]

-- Why an append raised: concurrent.futures.TimeoutError, CircuitBreakerError, ConnectionError or
-- OSError, anything else (a record that does not convert included).
pub data FlushError : Type 0 where
  timed_out circuit_is_open no_connection other_error : FlushError

-- _classify_flush_error
abbrev pub reason : FlushError → String
reason timed_out = "timeout"
reason circuit_is_open = "circuit_open"
reason no_connection = "catalog_unavailable"
reason other_error = "flush_error"

-- What a sink does that others can see.
pub data Effect : Type 0 where
  -- the append of a batch was tried (its conversion included), and how that ended
  attempt : List Row → Option FlushError → Effect
  -- a DLQ event: reason, transaction id, batch size
  dlq : String → String → ℕ → Effect
  -- the batch was pushed to the feature store
  push : List Row → Effect
  -- the counters of a full buffer and of an unavailable catalog
  overflow : Effect
  unavailable : Effect

pub record Sink : Type 0 where
  pub buffer : List Row
  pub last_flush_time : ℤ

-- txn_id in seen_txn_ids
unfoldable pub is_seen : String → List String → Bool
is_seen k [] = false
is_seen k (i ∷ seen) = i == k || is_seen k seen

-- The loop of _deduplicate; the set is a list of what was added.
unfoldable pub dedup_from : List String → List Row → List Row
dedup_from seen [] = []
dedup_from seen (r ∷ rows) =
    let skip = dedup_from seen rows in
    let keep = dedup_from (id_or "" r ∷ seen) rows in
    if is_seen (id_or "" r) seen then skip else r ∷ keep

-- _deduplicate
unfoldable pub deduplicate : List Row → List Row
unfolding dedup_from is_seen
deduplicate rows = dedup_from [] rows

-- deduplicated[0].get("transaction_id", "unknown") if deduplicated else "unknown"
abbrev pub first_txn_id : List Row → String
first_txn_id [] = "unknown"
first_txn_id (r ∷ _) = id_or "unknown" r

-- The DLQ event of a batch that failed, and the counter of an unavailable catalog.
abbrev pub report : List Row → FlushError → List Effect
report batch no_connection =
    unavailable ∷ dlq (reason no_connection) (first_txn_id batch) (length batch) ∷ []
report batch e = dlq (reason e) (first_txn_id batch) (length batch) ∷ []

-- What the table makes of a batch: none where the append returned in time.
abbrev pub Table : Type 0
Table = List Row → Option FlushError

-- _IcebergSinkBase: the body of the try. Without a table the batch is dropped.
unfoldable pub write_base : Option Table → List Row → List Effect
write_base none batch = []
write_base (some table) batch =
    attempt batch (table batch) ∷ elim (table batch) [ none ↦ [] | some e ↦ report batch e ]

-- IcebergEnrichedSink: without a table each record is reported, and a batch that was written is
-- pushed to the feature store, whose failures are caught.
unfoldable pub write_enriched : Option Table → List Row → List Effect
write_enriched none batch = map (λ r. dlq "iceberg_table_not_loaded" (id_or "unknown" r) 1) batch
write_enriched (some table) batch =
    attempt batch (table batch)
    ∷ elim (table batch) [ none ↦ push batch ∷ [] | some e ↦ report batch e ]

-- IcebergDecisionsSink: open() raises if there is no table.
unfoldable pub write_decisions : Table → List Row → List Effect
write_decisions table batch =
    attempt batch (table batch) ∷ elim (table batch) [ none ↦ [] | some e ↦ report batch e ]

-- now - self._last_flush_time_sec >= 1.0
abbrev pub is_due : ℤ → Sink → Bool
is_due now s = leb_ℤ (pos 1000) (now -ℤ s.last_flush_time)

abbrev pub append_row : Row → Sink → Sink
append_row r s = record s { buffer = s.buffer ++ r ∷ [] }

module _ (write : List Row → List Effect) (buffer_max : ℕ) where
  flush_rows : ℤ → Sink → List Row → Sink × List Effect
  unfolding deduplicate
  flush_rows now s [] = (s, [])
  flush_rows now s (r ∷ rows) = (
    record { buffer = []; last_flush_time = now },
    write (deduplicate (r ∷ rows))
        ++ (if leb buffer_max (length (r ∷ rows)) then overflow ∷ [] else []),
  )

  -- _flush at the clock's value `now`
  unfoldable pub flush : ℤ → Sink → Sink × List Effect
  unfolding flush_rows
  flush now s = flush_rows now s s.buffer

  -- invoke; the clock is read up to three times, and no step of it raises
  unfoldable pub invoke : ℤ → ℤ → ℤ → Row → Sink → Sink × List Effect
  invoke now first second r s =
      let (s1, effects) = if is_due now s then flush first s else (s, []) in
      let s2 = append_row r s1 in
      let (s3, more) = if leb buffer_max (length s2.buffer) then flush second s2 else (s2, []) in
      (s3, effects ++ more)
