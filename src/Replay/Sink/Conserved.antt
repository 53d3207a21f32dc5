-- ===== src/Replay/Sink/Conserved.antt =====
-- Where the results that were sent are, whatever the threads do (pipelines/replay/result_sink.py).
use fraudstream.Prelude.{
  ℕ, suc, ◌+◌, ◌≡◌, Bool, List, [], ◌∷◌, ◌++◌, Option, none, some, arith, if◌then◌else◌,
  Option-cases, List-cases, inl, inr,
}
use fraudstream.Replay.Sink.{
  Thread, flusher, caller, Outcome, appended, skipped, failed, Action, offer, buffer_offered,
  take_batch, end_write, process_one, Sink, batch_of, set_batch, send_to_kafka, enqueue,
  take_buffer, finish, step, run,
}

module _ {R : Type 0} (takes is_it : R → Bool) where
  -- How many of the results are the one that is looked for.
  abbrev pub count : List R → ℕ
  count [] = 0
  count (r ∷ results) = let rest = count results in if is_it r then suc rest else rest

  abbrev pub count_batch : Option (List R) → ℕ
  count_batch none = 0
  count_batch (some batch) = count batch

  abbrev pub count_offered : Option R → ℕ
  count_offered none = 0
  count_offered (some r) = count (r ∷ [])

  pub count-append : (xs ys : List R) → count (xs ++ ys) ≡ count xs + count ys
  count-append [] ys = omega arith
  count-append (x ∷ xs) ys = ground (arith, count-append xs ys)

  -- In the buffer, in a batch that a thread writes, offered, in the table, or left out of it.
  abbrev pub held : Sink R → ℕ
  held s =
      count s.buffer
      + count_batch s.batch_of_flusher
      + count_batch s.batch_of_caller
      + count_offered s.offered
      + count s.table
      + count s.dropped

  -- The result whose sending begins with an action.
  abbrev pub begun : Action R → Sink R → List R
  begun (offer r) s = elim s.offered [ none ↦ r ∷ [] | some _ ↦ [] ]
  begun buffer_offered s = []
  begun (take_batch t) s = []
  begun (end_write t o) s = []
  begun process_one s = []

  -- The results that are sent in a sequence of actions.
  abbrev pub sent : List (Action R) → Sink R → List R
  sent [] s = []
  sent (a ∷ actions) s = begun a s ++ sent actions (step takes a s)

  send_to_kafka-held : (r : R) (s : Sink R) → held (send_to_kafka takes r s) ≡ held s
  unfolding send_to_kafka
  send_to_kafka-held r s = ground arith

  take_buffer-held :
      (t : Thread) (s : Sink R) → batch_of takes t s ≡ none → held (take_buffer takes t s) ≡ held s
  unfolding take_buffer
  take_buffer-held flusher s h = ground arith
  take_buffer-held caller s h = ground arith

  finish-held :
      (o : Outcome) (batch : List R) (s : Sink R)
      → held (finish takes o batch s) ≡ held s + count batch
  unfolding finish
  finish-held appended batch s = ground (arith, count-append s.table batch)
  finish-held skipped batch s = ground (arith, count-append s.dropped batch)
  finish-held failed batch s = ground (arith, count-append s.buffer batch)

  step-held : (a : Action R) (s : Sink R) → held (step takes a s) ≡ held s + count (begun a s)
  unfolding step enqueue
  step-held (offer r) s = ground (arith, send_to_kafka-held r s)
  step-held buffer_offered s = elim (Option-cases s.offered) [
    | inl n ↦ ground (arith, n)
    | inr (r, e) ↦ ground (arith, e, count-append s.buffer (r ∷ []))
  ]
  step-held (take_batch t) s = ground (arith, take_buffer-held t s)
  step-held (end_write flusher o) s = elim (Option-cases s.batch_of_flusher) [
    | inl n ↦ ground (arith, n)
    | inr (b, e) ↦ ground (arith, e, finish-held o b (set_batch takes flusher none s))
  ]
  step-held (end_write caller o) s = elim (Option-cases s.batch_of_caller) [
    | inl n ↦ ground (arith, n)
    | inr (b, e) ↦ ground (arith, e, finish-held o b (set_batch takes caller none s))
  ]
  step-held process_one s = elim (List-cases s.queue) [
    | inl n ↦ ground (arith, n)
    | inr (r, queue, e) ↦ ground (arith, e, send_to_kafka-held r (record s { queue = queue }))
  ]

  -- Whatever the threads do and in whatever order, however often a write fails: every result that was
  -- sent is in the buffer, offered, in a batch that is being written, in the table, or left out of it
  -- for want of PyIceberg, in exactly one of these places and as often as it was sent.
  pub run-held :
      (actions : List (Action R)) (s : Sink R)
      → held (run takes actions s) ≡ held s + count (sent actions s)
  unfolding run
  run-held [] s = omega arith
  run-held (a ∷ actions) s = ground (
    arith,
    step-held a s,
    run-held actions (step takes a s),
    count-append (begun a s) (sent actions (step takes a s)),
  )
