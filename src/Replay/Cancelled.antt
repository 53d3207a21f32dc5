-- ===== src/Replay/Cancelled.antt =====
-- How a job ends, and what a cancelled one says (pipelines/replay/replay_job.py).
use fraudstream.Prelude.{
  ℕ, zero, suc, ◌+◌, ◌*◌, ◌/◌, ◌<◌, ◌≡◌, ◌≢◌, ◌⊎◌, inl, inr, refl, Bool, true, false, List, [], ◌∷◌,
  ◌++◌, none, some, arith, Option-cases, length, take,
}
use mathlib.Core.List.{append-nil}
use fraudstream.Replay.{
  pending, running, completed, failed, cancelled, Job, Source, World, stopped, handle_event,
  replay_events, conclude, run_replay, start, new_job,
}
use fraudstream.Replay.Counts.{scored, delivered, handle_event-counts}

abbrev pub HasEnded : {R : Type 0} → Job R → Type 0
HasEnded job =
    (job.has_ended ≡ true)
    × ((job.status ≡ completed) ⊎ ((job.status ≡ failed) ⊎ (job.status ≡ cancelled)))

module _ {Event R : Type 0} (w : World Event R) where
  replay_events_status :
      (breaks : Bool) (i p f : ℕ) (events : List Event) (job : Job R)
      → (replay_events w breaks i p f events job).0 ≡ stopped
      → (replay_events w breaks i p f events job).1.status ≡ cancelled
  unfolding replay_events
  replay_events_status breaks i p f [] job h = ground arith
  replay_events_status breaks i p f (e ∷ events) job h =
      let next = handle_event w e p f job in
      ground (arith, replay_events_status breaks (i + 1) next.0 next.1 events next.2)

  pub start-HasEnded : (job : Job R) → job.status ≡ pending → HasEnded (start w job).1
  unfolding start run_replay conclude
  start-HasEnded job h = elim (Option-cases w.source) [
    | inl n ↦ ground (arith, n)
    | inr (s, n) ↦
        let counting : Job R = record job { status = running; total_events = s.event_count } in
        ground (arith, n, replay_events_status s.breaks 0 0 0 s.events counting)
  ]

  handle_event_update :
      (e : Event) (p f : ℕ) (job : Job R)
      → job.processed_events ≡ p / 100 * 100
      → (handle_event w e p f job).2.processed_events ≡ (handle_event w e p f job).0 / 100 * 100
  unfolding handle_event
  handle_event_update e p f job h = ground arith

  replay_events_cancelled :
      (breaks : Bool) (k i p f : ℕ) (events : List Event) (job : Job R)
      → ((j : ℕ) → j < i + k → w.is_cancelled j ≡ false)
      → w.is_cancelled (i + k) ≡ true
      → k < length events
      → job.processed_events ≡ p / 100 * 100
      → let run = replay_events w breaks i p f events job in
        (run.0 ≡ stopped)
        × (run.1.results ≡ job.results ++ scored w (take k events))
        × (run.1.processed_events ≡ (p + delivered w (take k events)) / 100 * 100)
        × (run.1.failed_events ≡ job.failed_events)
  unfolding replay_events
  replay_events_cancelled breaks k i p f [] job before at within counted = absurd (ground arith)
  replay_events_cancelled breaks zero i p f (e ∷ events) job before at within counted =
      ground (arith, append-nil job.results)
  replay_events_cancelled breaks (suc k) i p f (e ∷ events) job before at within counted =
      let next = handle_event w e p f job in
      ground (
        arith,
        before i,
        handle_event-counts w e p f (take k events) job,
        handle_event_update e p f job counted,
        replay_events_cancelled breaks k (i + 1) next.0 next.1 events next.2
            (λ j l. before j (omega arith)) (ground arith) (omega arith)
            (handle_event_update e p f job counted),
      )

  start_ended :
      (again : World Event R) (job : Job R)
      → HasEnded job
      → ((start again job).0 ≢ none) × ((start again job).1 ≡ job)
  unfolding start
  start_ended again job h = (λ e. ground arith, ground arith)

  -- Once a job has been started, it ends completed, failed or cancelled, and every later start
  -- raises and leaves it as it is, whatever the source, the scoring function, the sink and the
  -- callback do.
  pub start_once :
      (again : World Event R)
      → let job = (start w new_job).1 in
        HasEnded job × ((start again job).0 ≢ none) × ((start again job).1 ≡ job)
  start_once again =
      let ended : HasEnded (start w new_job).1 = start-HasEnded new_job refl in
      let later = start_ended again (start w new_job).1 ended in (ended, later.0, later.1)

  -- A job whose cancellation is seen before event k ends cancelled, with the results of the k events
  -- before; its count of processed events is rounded down to hundreds and no failed event is
  -- counted.
  pub start_cancelled :
      (k : ℕ) (s : Source Event)
      → w.source ≡ some s
      → ((j : ℕ) → j < k → w.is_cancelled j ≡ false)
      → w.is_cancelled k ≡ true
      → k < length s.events
      → let job = (start w new_job).1 in
        (job.status ≡ cancelled)
        × (job.results ≡ scored w (take k s.events))
        × (job.processed_events ≡ delivered w (take k s.events) / 100 * 100)
        × (job.failed_events ≡ 0)
  unfolding start run_replay conclude
  start_cancelled k s h before at within =
      let counting : Job R = record new_job { status = running; total_events = s.event_count } in
      ground (
        arith,
        h,
        replay_events_status s.breaks 0 0 0 s.events counting,
        replay_events_cancelled s.breaks k 0 0 0 s.events counting (λ j l. before j (omega arith))
            (ground arith) within (omega arith),
      )
