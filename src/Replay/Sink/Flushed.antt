-- ===== src/Replay/Sink/Flushed.antt =====
-- What a flush of the caller settles (pipelines/replay/result_sink.py).
use fraudstream.Prelude.{
  ℕ, ◌+◌, ◌≡◌, refl, Bool, true, List, [], ◌∷◌, ◌++◌, none, arith, List-cases, inl, inr,
}
use mathlib.Core.List.{append-nil}
use fraudstream.Replay.Sink.{
  Outcome, flusher, caller, appended, skipped, failed, Action, offer, buffer_offered, take_batch,
  end_write, process_one, Sink, init, send_to_kafka, enqueue, take_buffer, finish, step, run,
  process_queue, flush, close,
}
use fraudstream.Replay.Sink.Conserved.{count, sent, run-held, count-append}

module _ {R : Type 0} (takes : R → Bool) where
  -- No thread is in the middle of a send or a write.
  abbrev pub IsIdle : Sink R → Type 0
  IsIdle s = (s.offered ≡ none) × (s.batch_of_flusher ≡ none) × (s.batch_of_caller ≡ none)

  SameStore : Sink R → Sink R → Type 0
  SameStore s u =
      (u.buffer ≡ s.buffer)
      × (u.table ≡ s.table)
      × (u.dropped ≡ s.dropped)
      × (u.offered ≡ s.offered)
      × (u.batch_of_flusher ≡ s.batch_of_flusher)
      × (u.batch_of_caller ≡ s.batch_of_caller)
      × (u.has_table ≡ s.has_table)

  send_to_kafka-store :
      (r : R) (s : Sink R)
      → SameStore s (send_to_kafka takes r s) × ((send_to_kafka takes r s).queue ≡ s.queue)
  unfolding send_to_kafka SameStore
  send_to_kafka-store r s = ground arith

  process_queue-store :
      (queue : List R) (s : Sink R)
      → s.queue ≡ queue
      → SameStore s (process_queue takes queue s) × ((process_queue takes queue s).queue ≡ [])
  unfolding process_queue SameStore
  process_queue-store [] s e = ground (arith, e)
  process_queue-store (r ∷ queue) s e =
      let u : Sink R = record s { queue = queue } in
      let v = send_to_kafka takes r u in
      ground (arith, send_to_kafka-store r u, process_queue-store queue v)

  -- A flush whose write is appended moves the whole buffer to the table and empties the queue.
  flush_appended :
      (s : Sink R)
      → s.has_table ≡ true
      → IsIdle s
      → let u = flush takes appended s in
        (u.queue ≡ [])
        × (u.buffer ≡ [])
        × (u.table ≡ s.table ++ s.buffer)
        × (u.dropped ≡ s.dropped)
        × (u.batch_of_flusher ≡ none)
  unfolding flush step take_buffer finish SameStore
  flush_appended s has idle = elim (List-cases s.buffer) [
    | inl n ↦ ground (arith, n, has, idle, process_queue-store s.queue s, append-nil s.table)
    | inr (r, rest, e) ↦ ground (arith, e, has, idle, process_queue-store s.queue s)
  ]

  step-has_table : (a : Action R) (s : Sink R) → (step takes a s).has_table ≡ s.has_table
  unfolding step send_to_kafka enqueue take_buffer finish
  step-has_table (offer r) s = ground arith
  step-has_table buffer_offered s = ground arith
  step-has_table (take_batch flusher) s = ground arith
  step-has_table (take_batch caller) s = ground arith
  step-has_table (end_write flusher appended) s = ground arith
  step-has_table (end_write flusher skipped) s = ground arith
  step-has_table (end_write flusher failed) s = ground arith
  step-has_table (end_write caller appended) s = ground arith
  step-has_table (end_write caller skipped) s = ground arith
  step-has_table (end_write caller failed) s = ground arith
  step-has_table process_one s = ground arith

  run-has_table :
      (actions : List (Action R)) (s : Sink R) → (run takes actions s).has_table ≡ s.has_table
  unfolding run
  run-has_table [] s = refl
  run-has_table (a ∷ actions) s =
      ground (arith, step-has_table a s, run-has_table actions (step takes a s))

  -- Whatever was done with a sink that has a table, once no thread is in the middle of a send or a
  -- write, a flush whose write succeeds leaves nothing pending: the queue and the buffer are empty, and
  -- every result is in the table as often as it was sent, but for what was left out for want of
  -- PyIceberg.
  pub flush-settles :
      (is_it : R → Bool) (actions : List (Action R)) (max_queue_size : ℕ) (has_producer : Bool)
      → let s = init max_queue_size true has_producer in
        IsIdle (run takes actions s)
        → let u = flush takes appended (run takes actions s) in
          (u.queue ≡ [])
          × (u.buffer ≡ [])
          × (count takes is_it u.table + count takes is_it u.dropped
              ≡ count takes is_it (sent takes is_it actions s))
  unfolding init
  flush-settles is_it actions max has_producer idle =
      let s = init {R = R} max true has_producer in
      let u = run takes actions s in
      let settled = flush_appended u (run-has_table actions s) idle in
      ground (
        arith,
        settled,
        idle,
        run-held takes is_it actions s,
        count-append takes is_it u.table u.buffer,
      )

  step_idle :
      (o : Outcome) (s : Sink R)
      → s.batch_of_flusher ≡ none
      → s.buffer ≡ []
      → let u = step takes (end_write flusher o) (step takes (take_batch flusher) s) in
        (u.table ≡ s.table) × (u.dropped ≡ s.dropped)
  unfolding step take_buffer finish
  step_idle o s idle empty = ground (arith, idle, empty)

  -- A sink that is closed when no thread is in the middle of a send or a write, with a write that
  -- succeeds, has in its table what it held and was sent, whatever the last turn of the flush thread is.
  pub close-settles :
      (is_it : R → Bool) (actions : List (Action R)) (max_queue_size : ℕ) (has_producer : Bool)
      (o : Outcome)
      → let s = init max_queue_size true has_producer in
        IsIdle (run takes actions s)
        → let u =
            close takes appended
              (take_batch flusher ∷ end_write flusher o ∷ [])
              (run takes actions s) in
          count takes is_it u.table + count takes is_it u.dropped
          ≡ count takes is_it (sent takes is_it actions s)
  unfolding init close run
  close-settles is_it actions max has_producer o idle =
      let s = init {R = R} max true has_producer in
      let u = run takes actions s in
      let settled = flush_appended u (run-has_table actions s) idle in
      let last = step_idle o (flush takes appended u) settled.4 settled.1 in
      ground (arith, last, flush-settles is_it actions max has_producer idle)
