-- ===== src/Replay/Sink.antt =====
-- pipelines/replay/result_sink.py: ReplayResultSink. Two threads use a sink, the caller and the thread
-- of the periodic flush; an action is what one of them does between two points where the other can
-- run, as the lock and the queue leave it. What the producer takes and how a write to the table ends
-- is chosen from outside.
pub mod Conserved
pub mod Queued
pub mod Flushed
use fraudstream.Prelude.{
  ℕ, ◌+◌, Bool, true, false, ◌||◌, List, [], ◌∷◌, ◌++◌, Option, none, some, ◌==◌, ltb, length,
  if◌then◌else◌,
}

pub data Thread : Type 0 where
  flusher caller : Thread

-- How _write_to_iceberg ends: the batch is appended, PyIceberg is missing, or it raises.
pub data Outcome : Type 0 where
  appended skipped failed : Outcome

pub data Action (R : Type 0) : Type 0 where
  -- send_result up to the lock, and its rest
  offer : R → Action R
  buffer_offered : Action R
  -- _flush_buffer up to the write, and its rest
  take_batch : Thread → Action R
  end_write : Thread → Outcome → Action R
  -- one round of _process_queue
  process_one : Action R

pub record Sink (R : Type 0) : Type 0 where
  -- 0 for a queue with no bound
  pub max_queue_size : ℕ
  pub has_table : Bool
  pub has_producer : Bool
  pub queue : List R
  pub buffer : List R
  -- the result that the caller has offered and not yet put in the buffer
  pub offered : Option R
  -- the batch that each thread writes
  pub batch_of_flusher : Option (List R)
  pub batch_of_caller : Option (List R)
  -- what was given to the producer and appended to the table, and what was left out of it
  pub produced : List R
  pub table : List R
  pub dropped : List R

-- __init__
unfoldable pub init : {R : Type 0} → ℕ → Bool → Bool → Sink R
init max_queue_size has_table has_producer = record {
  max_queue_size = max_queue_size;
  has_table = has_table;
  has_producer = has_producer;
  queue = [];
  buffer = [];
  offered = none;
  batch_of_flusher = none;
  batch_of_caller = none;
  produced = [];
  table = [];
  dropped = [];
}

module _ {R : Type 0} (takes : R → Bool) where
  -- _send_to_kafka; `produce` may raise, which is logged
  unfoldable pub send_to_kafka : R → Sink R → Sink R
  send_to_kafka r s = elim s.has_producer [
    | false ↦ s
    | true ↦ if takes r then record s { produced = s.produced ++ r ∷ [] } else s
  ]

  abbrev pub has_room : Sink R → Bool
  has_room s = s.max_queue_size == 0 || ltb (length s.queue) s.max_queue_size

  -- `self._queue.put(result, timeout=1.0)`, else straight to Kafka
  unfoldable pub enqueue : R → Sink R → Sink R
  unfolding send_to_kafka
  enqueue r s = if has_room s then record s { queue = s.queue ++ r ∷ [] } else send_to_kafka r s

  abbrev pub batch_of : Thread → Sink R → Option (List R)
  batch_of flusher s = s.batch_of_flusher
  batch_of caller s = s.batch_of_caller

  abbrev pub set_batch : Thread → Option (List R) → Sink R → Sink R
  set_batch flusher b s = record s { batch_of_flusher = b }
  set_batch caller b s = record s { batch_of_caller = b }

  -- `batch = self._buffer.copy(); self._buffer.clear()`, unless there is no table or nothing to write
  unfoldable pub take_buffer : Thread → Sink R → Sink R
  take_buffer t s = elim s.has_table [
    | false ↦ s
    | true ↦ elim s.buffer [
      | [] ↦ s
      | r ∷ rest ↦ record (set_batch t (some (r ∷ rest)) s) { buffer = [] }
    ]
  ]

  -- The end of the write of a batch.
  unfoldable pub finish : Outcome → List R → Sink R → Sink R
  finish appended batch s = record s { table = s.table ++ batch }
  finish skipped batch s = record s { dropped = s.dropped ++ batch }
  finish failed batch s = record s { buffer = s.buffer ++ batch }

  -- An action whose thread is not at that point changes nothing.
  unfoldable pub step : Action R → Sink R → Sink R
  unfolding enqueue take_buffer finish
  step (offer r) s = elim s.offered [
    | some _ ↦ s
    | none ↦ record (enqueue r s) { offered = some r }
  ]
  step buffer_offered s = elim s.offered [
    | none ↦ s
    | some r ↦ record s { offered = none; buffer = s.buffer ++ r ∷ [] }
  ]
  step (take_batch t) s = elim (batch_of t s) [ some _ ↦ s | none ↦ take_buffer t s ]
  step (end_write t o) s = elim (batch_of t s) [
    | none ↦ s
    | some batch ↦ finish o batch (set_batch t none s)
  ]
  step process_one s = elim s.queue [
    | [] ↦ s
    | r ∷ queue ↦ send_to_kafka r (record s { queue = queue })
  ]

  unfoldable pub run : List (Action R) → Sink R → Sink R
  unfolding step
  run [] s = s
  run (a ∷ actions) s = run actions (step a s)

  -- _process_queue, until the queue is empty
  unfoldable pub process_queue : List R → Sink R → Sink R
  unfolding send_to_kafka
  process_queue [] s = s
  process_queue (r ∷ queue) s = process_queue queue (send_to_kafka r (record s { queue = queue }))

  -- flush of the caller with no other action between; `o` is how the write ends
  unfoldable pub flush : Outcome → Sink R → Sink R
  unfolding step process_queue
  flush o s = step (end_write caller o) (step (take_batch caller) (process_queue s.queue s))

  -- close; `last` is what the flush thread does until it is joined
  unfoldable pub close : Outcome → List (Action R) → Sink R → Sink R
  unfolding flush run
  close o last s = record (run last (flush o s)) { has_producer = false }
