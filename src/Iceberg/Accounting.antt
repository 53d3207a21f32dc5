-- ===== src/Iceberg/Accounting.antt =====
-- Which transaction ids the sinks have handled or still hold
-- (pipelines/processing/operators/iceberg_sink.py, pipelines/scoring/sinks/iceberg_decisions.py).
use fraudstream.Prelude.{
  ℕ, ◌≡◌, refl, String, Bool, false, ◌||◌, List, [], ◌∷◌, ◌++◌, some, arith, length, leb,
  if◌then◌else◌,
}
use fraudstream.Prelude.Int.{ℤ}
use fraudstream.Iceberg.{
  Row, id_or, Effect, attempt, dlq, push, overflow, unavailable, Sink, deduplicate, Table,
  write_enriched, write_decisions, flush_rows, flush, invoke, append_row,
}
use fraudstream.Prelude.Equality.{◌==◌, string_eq}
use fraudstream.Iceberg.Dedup.{occurs, occurs-deduplicate, occurs-append}

-- An append of a batch with a record of this id was tried.
abbrev pub attempted : String → List Effect → Bool
attempted k [] = false
attempted k (attempt batch outcome ∷ effects) = occurs k batch || attempted k effects
attempted k (dlq _ _ _ ∷ effects) = attempted k effects
attempted k (push _ ∷ effects) = attempted k effects
attempted k (overflow ∷ effects) = attempted k effects
attempted k (unavailable ∷ effects) = attempted k effects

attempted-append :
    (k : String) (es fs : List Effect) → attempted k (es ++ fs) ≡ (attempted k es || attempted k fs)
attempted-append k [] fs = refl
attempted-append k (attempt batch outcome ∷ es) fs = ground (arith, attempted-append k es fs)
attempted-append k (dlq _ _ _ ∷ es) fs = attempted-append k es fs
attempted-append k (push _ ∷ es) fs = attempted-append k es fs
attempted-append k (overflow ∷ es) fs = attempted-append k es fs
attempted-append k (unavailable ∷ es) fs = attempted-append k es fs

-- One call of `invoke`, with what it reads from the clock.
pub record Arrival : Type 0 where
  pub now : ℤ
  pub first : ℤ
  pub second : ℤ
  pub row : Row

abbrev pub arrives : String → List Arrival → Bool
arrives k [] = false
arrives k (a ∷ arrivals) = id_or "" a.row == k || arrives k arrivals

module _ (write : List Row → List Effect) (buffer_max : ℕ) where
  unfoldable pub run : List Arrival → Sink → Sink × List Effect
  run [] s = (s, [])
  run (a ∷ arrivals) s =
      let (s1, effects) = invoke write buffer_max a.now a.first a.second a.row s in
      let (s2, more) = run arrivals s1 in (s2, effects ++ more)

-- The ids that a run has handed over or still holds.
abbrev pub accounted : String → Sink × List Effect → Bool
accounted k r = attempted k r.1 || occurs k r.0.buffer

module _ (write : List Row → List Effect) (buffer_max : ℕ)
    (covers : (k : String) (batch : List Row) → attempted k (write batch) ≡ occurs k batch) where
  flush_rows-accounted :
      (k : String) (now : ℤ) (s : Sink) (rows : List Row)
      → s.buffer ≡ rows
      → accounted k (flush_rows write buffer_max now s rows) ≡ occurs k rows
  unfolding flush_rows
  flush_rows-accounted k now s [] h = ground arith
  flush_rows-accounted k now s (r ∷ rows) h =
      let batch = deduplicate (r ∷ rows) in
      let full = leb buffer_max (length (r ∷ rows)) in
      ground (
        arith,
        covers k batch,
        occurs-deduplicate k (r ∷ rows),
        attempted-append k (write batch) (if full then overflow ∷ [] else []),
      )

  flush-accounted :
      (k : String) (now : ℤ) (s : Sink)
      → accounted k (flush write buffer_max now s) ≡ occurs k s.buffer
  unfolding flush
  flush-accounted k now s = flush_rows-accounted k now s s.buffer refl

  invoke-accounted :
      (k : String) (now first second : ℤ) (r : Row) (s : Sink)
      → accounted k (invoke write buffer_max now first second r s)
        ≡ (occurs k s.buffer || id_or "" r == k)
  unfolding invoke
  invoke-accounted k now first second r s =
      let flushed = flush write buffer_max first s in
      ground (
        arith,
        flush-accounted k first s,
        flush-accounted k second (append_row r s),
        flush-accounted k second (append_row r flushed.0),
        occurs-append k s.buffer (r ∷ []),
        occurs-append k flushed.0.buffer (r ∷ []),
        attempted-append k flushed.1 (flush write buffer_max second (append_row r flushed.0)).1,
        attempted-append k flushed.1 [],
      )

  run-accounted :
      (k : String) (arrivals : List Arrival) (s : Sink)
      → accounted k (run write buffer_max arrivals s) ≡ (occurs k s.buffer || arrives k arrivals)
  unfolding run
  run-accounted k [] s = ground arith
  run-accounted k (a ∷ arrivals) s =
      let step = invoke write buffer_max a.now a.first a.second a.row s in
      ground (
        arith,
        invoke-accounted k a.now a.first a.second a.row s,
        run-accounted k arrivals step.0,
        attempted-append k step.1 (run write buffer_max arrivals step.0).1,
      )

abbrev pub empty_sink : ℤ → Sink
empty_sink t = record { buffer = []; last_flush_time = t }

write_enriched-covers :
    (table : Table) (k : String) (batch : List Row)
    → attempted k (write_enriched (some table) batch) ≡ occurs k batch
unfolding write_enriched
write_enriched-covers table k batch = ground arith

write_decisions-covers :
    (table : Table) (k : String) (batch : List Row)
    → attempted k (write_decisions table batch) ≡ occurs k batch
unfolding write_decisions
write_decisions-covers table k batch = ground arith

-- With a table, from an empty buffer, after any records at any times: a transaction id came in
-- exactly if the append of a batch with it was tried or it is still in the buffer, whatever the
-- appends did.
pub enriched-accounted :
    (table : Table) (buffer_max : ℕ) (k : String) (arrivals : List Arrival) (t : ℤ)
    → accounted k (run (write_enriched (some table)) buffer_max arrivals (empty_sink t))
      ≡ arrives k arrivals
enriched-accounted table buffer_max k arrivals t =
    run-accounted (write_enriched (some table)) buffer_max (write_enriched-covers table) k arrivals
      (empty_sink t)

-- The same of the sink of fraud decisions.
pub decisions-accounted :
    (table : Table) (buffer_max : ℕ) (k : String) (arrivals : List Arrival) (t : ℤ)
    → accounted k (run (write_decisions table) buffer_max arrivals (empty_sink t))
      ≡ arrives k arrivals
decisions-accounted table buffer_max k arrivals t =
    run-accounted (write_decisions table) buffer_max (write_decisions-covers table) k arrivals
      (empty_sink t)
