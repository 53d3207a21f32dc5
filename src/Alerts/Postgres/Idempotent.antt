-- ===== src/Alerts/Postgres/Idempotent.antt =====
-- Retries, by the sink itself or by a restarted job, neither lose nor repeat an alert
-- (pipelines/scoring/sinks/alert_postgres.py).
use fraudstream.Prelude.{
  ℕ, suc, ◌≤◌, ◌≡◌, ◌⊎◌, refl, ◌∙◌, String, Bool, true, false, ◌||◌, List, [], ◌∷◌, ◌++◌, Option,
  none, some, arith, if◌then◌else◌,
}
use fraudstream.Prelude.Equality.{◌==◌, string_eq}
use text.Mathlib.TextEquality.{eq_iff}
use fraudstream.Value.{Value}
use fraudstream.Decision.{FraudAlert}
use fraudstream.Alerts.Postgres.{
  Server, Postgres, has_row, insert_row, connect, ensure_connection, execute_insert, retry,
  try_insert, persist,
}

-- A call of `persist`, with what the server does during it.
pub record Call : Type 0 where
  pub server : Server
  pub alert : FraudAlert

module _ (key : Value → String) where
  -- The row of a transaction id, the first in the order of insertion.
  abbrev pub find : String → List FraudAlert → Option FraudAlert
  find k [] = none
  find k (a ∷ rows) = let rest = find k rows in if key a.transaction_id == k then some a else rest

  abbrev pub count : String → List FraudAlert → ℕ
  count k [] = 0
  count k (a ∷ rows) =
      let rest = count k rows in if key a.transaction_id == k then suc rest else rest

  abbrev pub or_else : Option FraudAlert → Option FraudAlert → Option FraudAlert
  or_else none b = b
  or_else (some a) b = some a

  has_row-find :
      (k : String) (rows : List FraudAlert)
      → has_row key k rows ≡ elim (find k rows) [ none ↦ false | some _ ↦ true ]
  has_row-find k [] = refl
  has_row-find k (a ∷ rows) = ground (arith, has_row-find k rows)

  has_row-count :
      (k : String) (rows : List FraudAlert) → has_row key k rows ≡ false → count k rows ≡ 0
  has_row-count k [] h = refl
  has_row-count k (a ∷ rows) h = ground (arith, has_row-count k rows)

  find-append :
      (k : String) (rows more : List FraudAlert)
      → find k (rows ++ more) ≡ or_else (find k rows) (find k more)
  find-append k [] more = refl
  find-append k (a ∷ rows) more = ground (arith, find-append k rows more)

  count-add :
      (k : String) (rows : List FraudAlert) (a : FraudAlert)
      → count k (rows ++ a ∷ [])
        ≡ (let n = count k rows in if key a.transaction_id == k then suc n else n)
  count-add k [] a = refl
  count-add k (b ∷ rows) a = ground (arith, count-add k rows a)

  find-insert_row :
      (k : String) (a : FraudAlert) (rows : List FraudAlert)
      → find k (insert_row key a rows) ≡ or_else (find k rows) (find k (a ∷ []))
  unfolding insert_row
  find-insert_row k a rows = ground (
    arith,
    eq_iff (key a.transaction_id) k,
    has_row-find (key a.transaction_id) rows,
    find-append k rows (a ∷ []),
  )

  count-insert_row :
      (k : String) (a : FraudAlert) (rows : List FraudAlert)
      → count k rows ≤ 1
      → count k (insert_row key a rows) ≤ 1
  unfolding insert_row
  count-insert_row k a rows h =
      ground (arith, eq_iff (key a.transaction_id) k, has_row-count k rows, count-add k rows a)

  insert_row_known :
      (a : FraudAlert) (rows : List FraudAlert)
      → has_row key (key a.transaction_id) rows ≡ true
      → insert_row key a rows ≡ rows
  unfolding insert_row
  insert_row_known a rows h = ground arith

  has_row-insert_row :
      (k : String) (a : FraudAlert) (rows : List FraudAlert)
      → has_row key k (insert_row key a rows) ≡ (has_row key k rows || key a.transaction_id == k)
  has_row-insert_row k a rows =
      ground (
        arith,
        has_row-find k rows,
        has_row-find k (insert_row key a rows),
        find-insert_row k a rows,
      )

  insert_row_again :
      (a : FraudAlert) (rows : List FraudAlert)
      → insert_row key a (insert_row key a rows) ≡ insert_row key a rows
  insert_row_again a rows = insert_row_known a (insert_row key a rows) (
      ground (
        arith,
        eq_iff (key a.transaction_id) (key a.transaction_id),
        has_row-insert_row (key a.transaction_id) a rows,
      ))

  persist_table :
      (server : Server) (a : FraudAlert) (s : Postgres)
      → ((persist key server a s).1.table ≡ s.table)
        ⊎ ((persist key server a s).1.table ≡ insert_row key a s.table)
  unfolding persist try_insert retry ensure_connection connect execute_insert
  persist_table server a s = ground (arith, insert_row_again a s.table)

  pub persist_ok :
      (server : Server) (a : FraudAlert) (s : Postgres)
      → (persist key server a s).0 ≡ none
      → (persist key server a s).1.table ≡ insert_row key a s.table
  unfolding persist try_insert retry ensure_connection connect execute_insert
  persist_ok server a s h = ground (arith, insert_row_again a s.table)

  -- Successive calls, and whether all of them returned.
  unfoldable pub run : List Call → Postgres → Bool × Postgres
  run [] s = (true, s)
  run (c ∷ calls) s =
      let (raised, s1) = persist key c.server c.alert s in
      let (returned, s2) = run calls s1 in (elim raised [ none ↦ returned | some _ ↦ false ], s2)

  abbrev pub alerts : List Call → List FraudAlert
  alerts [] = []
  alerts (c ∷ calls) = c.alert ∷ alerts calls

  -- Where no transaction id has two rows, none has two after any calls, whatever the server does
  -- and whether or not they return.
  pub count-run :
      (k : String) (calls : List Call) (s : Postgres)
      → count k s.table ≤ 1
      → count k (run calls s).1.table ≤ 1
  unfolding run
  count-run k [] s h = h
  count-run k (c ∷ calls) s h =
      let s1 = (persist key c.server c.alert s).1 in
      ground (
        arith,
        persist_table c.server c.alert s,
        count-insert_row k c.alert s.table,
        count-run k calls s1,
      )

  run_persisted :
      (c : Call) (calls : List Call) (s : Postgres)
      → (run (c ∷ calls) s).0 ≡ true
      → ((persist key c.server c.alert s).1.table ≡ insert_row key c.alert s.table)
        × ((run calls (persist key c.server c.alert s).1).0 ≡ true)
  unfolding run
  run_persisted c calls s h = (persist_ok c.server c.alert s (ground arith), ground arith)

  -- After calls that all returned, the row of a transaction id is the one that was there before,
  -- or else the first alert with it, whatever connections and answers were lost.
  pub find-run :
      (k : String) (calls : List Call) (s : Postgres)
      → (run calls s).0 ≡ true
      → find k (run calls s).1.table ≡ or_else (find k s.table) (find k (alerts calls))
  unfolding run
  find-run k [] s h = ground arith
  find-run k (c ∷ calls) s h =
      let s1 = (persist key c.server c.alert s).1 in
      ground
        (arith, run_persisted c calls s h, find-insert_row k c.alert s.table, find-run k calls s1)

  unfoldable AllKnown : List FraudAlert → List FraudAlert → Type 0
  AllKnown [] rows = Unit
  AllKnown (a ∷ more) rows = (has_row key (key a.transaction_id) rows ≡ true) × AllKnown more rows

  has_row-AllKnown :
      (more rows : List FraudAlert)
      → ((k : String) → has_row key k more ≡ true → has_row key k rows ≡ true)
      → AllKnown more rows
  unfolding AllKnown
  has_row-AllKnown [] rows h = tt
  has_row-AllKnown (a ∷ more) rows h =
      let k = key a.transaction_id in
      (h k (ground (arith, eq_iff k k)), has_row-AllKnown more rows (λ i e. h i (ground arith)))

  run_known :
      (calls : List Call) (s : Postgres)
      → AllKnown (alerts calls) s.table
      → (run calls s).1.table ≡ s.table
  unfolding run AllKnown
  run_known [] s h = refl
  run_known (c ∷ calls) s h =
      let s1 = (persist key c.server c.alert s).1 in
      let same : s1.table ≡ s.table =
        ground (arith, persist_table c.server c.alert s, insert_row_known c.alert s.table h.0) in
      run_known calls s1 (rw same h.1) ∙ same

  has_row-run :
      (k : String) (calls : List Call) (s : Postgres)
      → (run calls s).0 ≡ true
      → has_row key k (alerts calls) ≡ true
      → has_row key k (run calls s).1.table ≡ true
  has_row-run k calls s h m = ground (
    arith,
    has_row-find k (alerts calls),
    has_row-find k (run calls s).1.table,
    find-run k calls s h,
  )

  -- If calls all returned, the same alerts once more leave the table as it is, whatever the server
  -- does then.
  pub run_again :
      (calls again : List Call) (s : Postgres)
      → alerts again ≡ alerts calls
      → (run calls s).0 ≡ true
      → (run again (run calls s).1).1.table ≡ (run calls s).1.table
  run_again calls again s e h =
      run_known again (run calls s).1 (
        rw e (has_row-AllKnown (alerts calls) (run calls s).1.table (λ k. has_row-run k calls s h)))
