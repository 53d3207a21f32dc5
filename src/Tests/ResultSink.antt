-- ===== src/Tests/ResultSink.antt =====
-- A sink with a queue of one result: two results are sent, and the flush thread fails to write the
-- first and writes both at its second turn.
use fraudstream.Prelude.{ℕ, ◌+◌, ◌≡◌, refl, Bool, true, List, [], ◌∷◌, ◌==◌}
use fraudstream.Replay.Sink.{
  flusher, appended, failed, Action, offer, buffer_offered, take_batch, end_write, init, run, flush,
  step,
}
use fraudstream.Replay.Sink.Conserved.{held, count, sent, run-held}
use fraudstream.Replay.Sink.Flushed.{IsIdle, flush-settles}

abbrev takes_all : ℕ → Bool
takes_all r = true

abbrev is_two : ℕ → Bool
is_two r = r == 2

abbrev two_sends : List (Action ℕ)
two_sends =
    offer 1
    ∷ buffer_offered
    ∷ take_batch flusher
    ∷ offer 2
    ∷ end_write flusher failed
    ∷ buffer_offered
    ∷ take_batch flusher
    ∷ end_write flusher appended
    ∷ []

sends_run :
    let s = run takes_all two_sends (init 1 true true) in
    (s.table ≡ 1 ∷ 2 ∷ []) × (s.queue ≡ 1 ∷ []) × (s.produced ≡ 2 ∷ []) × (s.buffer ≡ [])
unfolding run init step
sends_run = (refl, refl, refl, refl)

sends-IsIdle : IsIdle takes_all (run takes_all two_sends (init 1 true true))
unfolding run init step
sends-IsIdle = (refl, refl, refl)

run-held_example :
    held takes_all is_two (run takes_all two_sends (init 1 true true))
    ≡ held takes_all is_two (init 1 true true)
      + count takes_all is_two (sent takes_all is_two two_sends (init 1 true true))
run-held_example = run-held takes_all is_two two_sends (init 1 true true)

flush-settles_example :
    let u = flush takes_all appended (run takes_all two_sends (init 1 true true)) in
    (u.queue ≡ [])
    × (u.buffer ≡ [])
    × (count takes_all is_two u.table + count takes_all is_two u.dropped
        ≡ count takes_all is_two (sent takes_all is_two two_sends (init 1 true true)))
flush-settles_example = flush-settles takes_all is_two two_sends 1 true sends-IsIdle
