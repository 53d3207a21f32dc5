-- ===== src/Tests/Iceberg.antt =====
-- The Iceberg sinks, with a catalog that refuses every append.
use fraudstream.Prelude.{◌≡◌, ◌<◌, arith, refl, String, List, [], ◌∷◌, none, some, length}
use fraudstream.Prelude.Int.{pos, ◌-ℤ◌}
use fraudstream.Iceberg.{
  Row, Sink, Table, no_connection, attempt, dlq, unavailable, deduplicate, write_enriched,
  write_decisions, flush, invoke,
}
use fraudstream.Iceberg.Buffer.{length-invoke}
use fraudstream.Iceberg.Accounting.{
  Arrival, arrives, accounted, run, empty_sink, enriched-accounted,
}

abbrev unreachable : Table
unreachable batch = some no_connection

abbrev row : String → Row
row i = record { transaction_id = some i; fields = [] }

abbrev holding : Sink
holding = record { buffer = row "a" ∷ row "b" ∷ row "a" ∷ []; last_flush_time = pos 0 }

abbrev arrivals : List Arrival
arrivals =
    record { now = pos 500; first = pos 500; second = pos 501; row = row "c" }
    ∷ record { now = pos 1600; first = pos 1601; second = pos 1602; row = row "a" }
    ∷ []

flush_run : flush (write_enriched (some unreachable)) 100 (pos 7) holding ≡ (
  record { buffer = []; last_flush_time = pos 7 },
  attempt (row "a" ∷ row "b" ∷ []) (some no_connection)
      ∷ unavailable
      ∷ dlq "catalog_unavailable" "a" 2
      ∷ [],
)
unfolding flush write_enriched deduplicate
flush_run = refl

no_table_run :
    (flush (write_enriched none) 100 (pos 7) holding).1
    ≡ dlq "iceberg_table_not_loaded" "a" 1 ∷ dlq "iceberg_table_not_loaded" "b" 1 ∷ []
unfolding flush write_enriched deduplicate
no_table_run = refl

run_holds :
    length (run (write_decisions unreachable) 100 arrivals (empty_sink (pos 0))).0.buffer ≡ 1
unfolding run invoke flush write_decisions deduplicate ◌-ℤ◌
run_holds = refl

enriched-accounted_example :
    accounted "c" (run (write_enriched (some unreachable)) 100 arrivals (empty_sink (pos 0)))
    ≡ arrives "c" arrivals
enriched-accounted_example = enriched-accounted unreachable 100 "c" arrivals (pos 0)

length-invoke_example :
    length
      (invoke
        (write_enriched (some unreachable))
        4
        (pos 500)
        (pos 500)
        (pos 501)
        (row "c")
        holding).0.buffer
    < 4
length-invoke_example =
    length-invoke (write_enriched (some unreachable)) 4 (pos 500) (pos 500) (pos 501) (row "c")
      holding (omega arith)
