-- ===== src/Replay/Sink/Queued.antt =====
-- What piles up in a sink: the queue that only a flush of the caller empties, and the buffer that
-- nothing empties where there is no table (pipelines/replay/result_sink.py).
use fraudstream.Prelude.{
  ℕ, suc, ◌-◌, ◌≤◌, ◌<◌, ◌≡◌, refl, Bool, false, List, [], ◌∷◌, ◌++◌, none, some, arith, ltb,
  length, take, Option-cases, Bool-cases, inl, inr, length-append, take-nil, take-cons,
}
use mathlib.Core.List.{append-nil, append_assoc}
use fraudstream.Replay.Sink.{
  flusher, caller, appended, skipped, failed, Action, offer, buffer_offered, take_batch, end_write,
  process_one, Sink, init, send_to_kafka, enqueue, take_buffer, finish, step, run,
}
use fraudstream.Replay.Sink.Conserved.{begun, sent}

module _ {R : Type 0} (takes is_it : R → Bool) where
  -- The caller runs no round of _process_queue.
  abbrev pub IsUnflushed : List (Action R) → Type 0
  IsUnflushed [] = Unit {0}
  IsUnflushed (offer r ∷ actions) = IsUnflushed actions
  IsUnflushed (buffer_offered ∷ actions) = IsUnflushed actions
  IsUnflushed (take_batch t ∷ actions) = IsUnflushed actions
  IsUnflushed (end_write t o ∷ actions) = IsUnflushed actions
  IsUnflushed (process_one ∷ actions) = ⊥

  -- What waits in the buffer or for the lock.
  abbrev pub kept : Sink R → List R
  kept s = s.buffer ++ elim s.offered [ none ↦ [] | some r ↦ r ∷ [] ]

  HasNoTable : Sink R → Type 0
  HasNoTable s = (s.has_table ≡ false) × (s.batch_of_flusher ≡ none) × (s.batch_of_caller ≡ none)

  step-kept :
      (a : Action R) (s : Sink R)
      → HasNoTable s
      → HasNoTable (step takes a s)
        × (kept (step takes a s) ≡ kept s ++ begun takes is_it a s)
        × ((step takes a s).table ≡ s.table)
  unfolding step HasNoTable enqueue send_to_kafka take_buffer finish
  step-kept (offer r) s h = ground (arith, h, append-nil s.buffer, append-nil (kept s))
  step-kept buffer_offered s h = ground (
    arith,
    h,
    append-nil (kept s),
    append-nil s.buffer,
    append-nil (kept (step takes buffer_offered s)),
  )
  step-kept (take_batch flusher) s h = ground (arith, h, append-nil (kept s))
  step-kept (take_batch caller) s h = ground (arith, h, append-nil (kept s))
  step-kept (end_write flusher o) s h = ground (arith, h, append-nil (kept s))
  step-kept (end_write caller o) s h = ground (arith, h, append-nil (kept s))
  step-kept process_one s h = ground (arith, h, append-nil (kept s))

  run-kept :
      (actions : List (Action R)) (s : Sink R)
      → HasNoTable s
      → (kept (run takes actions s) ≡ kept s ++ sent takes is_it actions s)
        × ((run takes actions s).table ≡ s.table)
  unfolding run
  run-kept [] s h = ground (arith, append-nil (kept s))
  run-kept (a ∷ actions) s h =
      let u = step takes a s in
      let one = step-kept a s h in
      ground (
        arith,
        one,
        run-kept actions u one.0,
        append_assoc (kept s) (begun takes is_it a s) (sent takes is_it actions u),
      )

  -- A sink with no table keeps every result that was sent, in order, in its buffer or before the lock,
  -- whatever is flushed, and writes none.
  pub run_without_table :
      (actions : List (Action R)) (max_queue_size : ℕ) (has_producer : Bool)
      → let s = init max_queue_size false has_producer in
        (kept (run takes actions s) ≡ sent takes is_it actions s)
        × ((run takes actions s).table ≡ [])
  unfolding init HasNoTable
  run_without_table actions max has_producer =
      run-kept actions (init max false has_producer) (refl, refl, refl)

  IsBounded : Sink R → Type 0
  IsBounded s = (0 < s.max_queue_size) × (length s.queue ≤ s.max_queue_size)

  SameQueue : Sink R → Sink R → Type 0
  SameQueue s u = (u.queue ≡ s.queue) × (u.max_queue_size ≡ s.max_queue_size)

  send_to_kafka-queue : (r : R) (s : Sink R) → SameQueue s (send_to_kafka takes r s)
  unfolding send_to_kafka SameQueue
  send_to_kafka-queue r s = ground arith

  step-queue :
      (a : Action R) (s : Sink R)
      → IsUnflushed (a ∷ [])
      → begun takes is_it a s ≡ []
      → SameQueue s (step takes a s)
  unfolding step SameQueue take_buffer finish
  step-queue (offer r) s u h = ground (arith, h)
  step-queue buffer_offered s u h = ground arith
  step-queue (take_batch flusher) s u h = ground arith
  step-queue (take_batch caller) s u h = ground arith
  step-queue (end_write flusher appended) s u h = ground arith
  step-queue (end_write flusher skipped) s u h = ground arith
  step-queue (end_write flusher failed) s u h = ground arith
  step-queue (end_write caller appended) s u h = ground arith
  step-queue (end_write caller skipped) s u h = ground arith
  step-queue (end_write caller failed) s u h = ground arith
  step-queue process_one s u h = absurd u

  enqueue_room :
      (r : R) (s : Sink R)
      → length s.queue < s.max_queue_size
      → let u = step takes (offer r) s in
        s.offered ≡ none → (u.queue ≡ s.queue ++ r ∷ []) × (u.max_queue_size ≡ s.max_queue_size)
  unfolding step enqueue
  enqueue_room r s room e = ground arith

  enqueue_full :
      (r : R) (s : Sink R)
      → 0 < s.max_queue_size
      → s.max_queue_size ≡ length s.queue
      → s.offered ≡ none
      → SameQueue s (step takes (offer r) s)
  unfolding step enqueue SameQueue
  enqueue_full r s b full e = ground (arith, send_to_kafka-queue r s)

  Queues : List (Action R) → Sink R → Type 0
  Queues actions s =
      (run takes actions s).queue
      ≡ s.queue ++ take (s.max_queue_size - length s.queue) (sent takes is_it actions s)

  offer-Queues :
      (r : R) (actions : List (Action R)) (s : Sink R)
      → IsBounded s
      → s.offered ≡ none
      → (IsBounded (step takes (offer r) s) → Queues actions (step takes (offer r) s))
      → Queues (offer r ∷ actions) s
  unfolding Queues IsBounded SameQueue run
  offer-Queues r actions s b e ih = elim (Bool-cases (ltb (length s.queue) s.max_queue_size)) [
    | inl room ↦
        let u = step takes (offer r) s in
        let less : length s.queue < s.max_queue_size = ground arith in
        let more = sent takes is_it actions u in
        let m = s.max_queue_size - suc (length s.queue) in
        ground (
          arith,
          e,
          ih,
          enqueue_room r s less e,
          length-append s.queue (r ∷ []),
          append_assoc s.queue (r ∷ []) (take m more),
          take-cons s.max_queue_size (length s.queue) r more less,
        )
    | inr full ↦
        let equal : s.max_queue_size ≡ length s.queue = ground arith in
        ground (arith, e, ih, enqueue_full r s b.0 equal e, equal)
  ]

  same-Queues :
      (a : Action R) (actions : List (Action R)) (s : Sink R)
      → IsBounded s
      → IsUnflushed (a ∷ [])
      → begun takes is_it a s ≡ []
      → (IsBounded (step takes a s) → Queues actions (step takes a s))
      → Queues (a ∷ actions) s
  unfolding Queues IsBounded SameQueue run
  same-Queues a actions s b u e ih = ground (arith, ih, e, step-queue a s u e)

  run-Queues :
      (actions : List (Action R)) (s : Sink R)
      → IsBounded s
      → IsUnflushed actions
      → Queues actions s
  unfolding Queues run
  run-Queues [] s b u =
      ground (arith, take-nil {A = R} (s.max_queue_size - length s.queue), append-nil s.queue)
  run-Queues (offer r ∷ actions) s b u = elim (Option-cases s.offered) [
    | inl e ↦ offer-Queues r actions s b e (λ c. run-Queues actions (step takes (offer r) s) c u)
    | inr (q, e) ↦
        same-Queues (offer r) actions s b tt (ground (arith, e))
          (λ c. run-Queues actions (step takes (offer r) s) c u)
  ]
  run-Queues (buffer_offered ∷ actions) s b u =
      same-Queues buffer_offered actions s b tt refl (λ c. run-Queues actions _ c u)
  run-Queues (take_batch t ∷ actions) s b u =
      same-Queues (take_batch t) actions s b tt refl (λ c. run-Queues actions _ c u)
  run-Queues (end_write t o ∷ actions) s b u =
      same-Queues (end_write t o) actions s b tt refl (λ c. run-Queues actions _ c u)
  run-Queues (process_one ∷ actions) s b u = absurd u

  -- Until the caller flushes or closes, the queue only fills: it holds the first max_queue_size results
  -- that were sent, whatever the flush thread does.
  pub run-queue :
      (actions : List (Action R)) (max_queue_size : ℕ) (has_table has_producer : Bool)
      → 0 < max_queue_size
      → IsUnflushed actions
      → let s = init max_queue_size has_table has_producer in
        (run takes actions s).queue ≡ take max_queue_size (sent takes is_it actions s)
  unfolding init Queues IsBounded
  run-queue actions max has_table has_producer h u =
      let all : max - 0 ≡ max = omega arith in
      ground (arith, all, run-Queues actions (init max has_table has_producer) (h, omega arith) u)
