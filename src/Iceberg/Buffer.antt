-- ===== src/Iceberg/Buffer.antt =====
-- The buffer stays below its limit, and what the overflow counter counts
-- (pipelines/processing/operators/iceberg_sink.py, invoke and _flush).
use fraudstream.Prelude.{
  ℕ, ◌+◌, ◌<◌, ◌≡◌, refl, Bool, true, false, ◌||◌, ◌&&◌, map, Option, none, some, List, [], ◌∷◌,
  ◌++◌, arith, length, length-append, leb, if◌then◌else◌,
}
use fraudstream.Prelude.Int.{ℤ}
use fraudstream.Iceberg.{
  Row, id_or, Effect, attempt, dlq, push, overflow, unavailable, Sink, Table, write_enriched,
  deduplicate, flush_rows, flush, invoke, is_due, append_row,
}

module _ (write : List Row → List Effect) (buffer_max : ℕ) where
  length-flush : (now : ℤ) (s : Sink) → length (flush write buffer_max now s).0.buffer ≡ 0
  unfolding flush
  length-flush now s = ground arith

  -- A buffer that holds fewer records than its limit does so after every record, whatever the
  -- clock, the table and the feature store do.
  pub length-invoke :
      (now first second : ℤ) (r : Row) (s : Sink)
      → length s.buffer < buffer_max
      → length (invoke write buffer_max now first second r s).0.buffer < buffer_max
  unfolding invoke
  length-invoke now first second r s h = ground (
    arith,
    length-flush first s,
    length-flush second (append_row r s),
    length-flush second (append_row r (flush write buffer_max first s).0),
    length-append s.buffer (r ∷ []),
    length-append (flush write buffer_max first s).0.buffer (r ∷ []),
  )

abbrev pub counts_overflow : List Effect → Bool
counts_overflow [] = false
counts_overflow (overflow ∷ _) = true
counts_overflow (_ ∷ effects) = counts_overflow effects

counts_overflow-append :
    (es fs : List Effect) → counts_overflow (es ++ fs) ≡ (counts_overflow es || counts_overflow fs)
counts_overflow-append [] fs = refl
counts_overflow-append (attempt _ _ ∷ es) fs = counts_overflow-append es fs
counts_overflow-append (dlq _ _ _ ∷ es) fs = counts_overflow-append es fs
counts_overflow-append (push _ ∷ es) fs = counts_overflow-append es fs
counts_overflow-append (overflow ∷ es) fs = refl
counts_overflow-append (unavailable ∷ es) fs = counts_overflow-append es fs

counts_overflow-lost :
    (batch : List Row)
    → counts_overflow (map (λ r. dlq "iceberg_table_not_loaded" (id_or "unknown" r) 1) batch)
      ≡ false
counts_overflow-lost [] = refl
counts_overflow-lost (r ∷ batch) = counts_overflow-lost batch

counts_overflow-write_enriched :
    (table : Option Table) (batch : List Row) → counts_overflow (write_enriched table batch) ≡ false
unfolding write_enriched
counts_overflow-write_enriched none batch = counts_overflow-lost batch
counts_overflow-write_enriched (some table) batch = ground arith

module _ (table : Option Table) (buffer_max : ℕ) where
  counts_overflow-flush_rows :
      (now : ℤ) (s : Sink) (rows : List Row)
      → counts_overflow (flush_rows (write_enriched table) buffer_max now s rows).1
        ≡ (leb 1 (length rows) && leb buffer_max (length rows))
  unfolding flush_rows
  counts_overflow-flush_rows now s [] = ground arith
  counts_overflow-flush_rows now s (r ∷ rows) =
      let batch = write_enriched table (deduplicate (r ∷ rows)) in
      let more = if leb buffer_max (length (r ∷ rows)) then overflow ∷ [] else [] in
      ground (
        arith,
        counts_overflow-append batch more,
        counts_overflow-write_enriched table (deduplicate (r ∷ rows)),
      )

  counts_overflow-flush :
      (now : ℤ) (s : Sink)
      → counts_overflow (flush (write_enriched table) buffer_max now s).1
        ≡ (leb 1 (length s.buffer) && leb buffer_max (length s.buffer))
  unfolding flush
  counts_overflow-flush now s = counts_overflow-flush_rows now s s.buffer

  -- With a buffer below its limit, the enriched sink's overflow counter goes up in a call exactly
  -- if the record fills the buffer (one that a second has passed for was emptied before),
  -- whether or not there is a table and whatever the append does.
  pub invoke_overflow :
      (now first second : ℤ) (r : Row) (s : Sink)
      → length s.buffer < buffer_max
      → counts_overflow (invoke (write_enriched table) buffer_max now first second r s).1
        ≡ leb buffer_max (1 + (if is_due now s then 0 else length s.buffer))
  unfolding invoke
  invoke_overflow now first second r s h =
      let flushed = flush (write_enriched table) buffer_max first s in
      let flush_again = flush (write_enriched table) buffer_max second (append_row r flushed.0) in
      ground (
        arith,
        length-flush (write_enriched table) buffer_max first s,
        counts_overflow-flush first s,
        counts_overflow-flush second (append_row r s),
        counts_overflow-flush second (append_row r flushed.0),
        length-append s.buffer (r ∷ []),
        length-append flushed.0.buffer (r ∷ []),
        counts_overflow-append flushed.1 flush_again.1,
        counts_overflow-append flushed.1 [],
      )
