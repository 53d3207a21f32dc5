-- ===== src/Alerts/Postgres.antt =====
-- pipelines/scoring/sinks/alert_postgres.py: AlertPostgresSink. The server is a parameter: what
-- it answers to each call is an argument, and a lost answer may or may not have been carried out.
pub mod Idempotent
use fraudstream.Prelude.{
  String, Bool, true, false, List, [], ◌∷◌, ◌++◌, Option, none, some, if◌then◌else◌,
}
use fraudstream.Prelude.Results.{Result, ok, err}
use fraudstream.Prelude.Equality.{◌==◌, string_eq}
use fraudstream.Value.{Value}
use fraudstream.Decision.{FraudAlert}

-- OperationalError or InterfaceError, and any other psycopg2.Error
pub data DbError : Type 0 where
  connection_error other_error : DbError

-- How one INSERT ends: carried out, refused with an error, or carried out with its answer lost.
pub data Answer : Type 0 where
  executed : Answer
  refused : DbError → Answer
  unanswered : Answer

-- What the server does during one call of `persist`.
pub record Server : Type 0 where
  pub ping : Bool
  pub connects : Bool
  pub insert : Answer
  pub reconnects : Bool
  pub insert_again : Answer

-- `connected` is whether self._conn is set; `table` has the rows of fraud_alerts.
pub record Postgres : Type 0 where
  pub connected : Bool
  pub table : List FraudAlert

-- The text that the column transaction_id gets.
module _ (key : Value → String) where
  abbrev pub has_row : String → List FraudAlert → Bool
  has_row k [] = false
  has_row k (a ∷ rows) =
      let rest = has_row k rows in if key a.transaction_id == k then true else rest

  -- INSERT ... ON CONFLICT (transaction_id) DO NOTHING, on the table's primary key
  unfoldable pub insert_row : FraudAlert → List FraudAlert → List FraudAlert
  insert_row a rows = if has_row (key a.transaction_id) rows then rows else rows ++ a ∷ []

  -- _connect; `some e` is an exception
  unfoldable pub connect : Bool → Postgres → Option DbError × Postgres
  connect true s = (none, record s { connected = true })
  connect false s = (some connection_error, s)

  -- _ensure_connection
  unfoldable pub ensure_connection : Server → Postgres → Option DbError × Postgres
  unfolding connect
  ensure_connection server s =
      if s.connected
      then (if server.ping then (none, s) else connect server.connects s)
      else connect server.connects s

  -- _execute_insert
  unfoldable pub execute_insert : Answer → FraudAlert → Postgres → Option DbError × Postgres
  unfolding insert_row
  execute_insert executed a s = (none, record s { table = insert_row a s.table })
  execute_insert (refused e) a s = (some e, s)
  execute_insert unanswered a s = (some connection_error, record s { table = insert_row a s.table })

  -- The handler of a connection error in `persist`.
  unfoldable pub retry : Server → FraudAlert → Postgres → Option DbError × Postgres
  unfolding connect execute_insert
  retry server a s =
      let (raised, s1) = connect server.reconnects s in
      elim raised [ some e ↦ (some e, s1) | none ↦ execute_insert server.insert_again a s1 ]

  -- The insert of `persist`, with its handler.
  unfoldable pub try_insert : Server → FraudAlert → Postgres → Option DbError × Postgres
  unfolding execute_insert retry
  try_insert server a s =
      let (raised, s1) = execute_insert server.insert a s in
      elim raised [
        | none ↦ (none, s1)
        | some connection_error ↦ retry server a s1
        | some other_error ↦ (some other_error, s1)
      ]

  -- persist
  unfoldable pub persist : Server → FraudAlert → Postgres → Option DbError × Postgres
  unfolding ensure_connection try_insert
  persist server a s =
      let (raised, s1) = ensure_connection server s in
      elim raised [ some e ↦ (some e, s1) | none ↦ try_insert server a s1 ]
