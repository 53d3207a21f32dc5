-- ===== src/Replay/Counts.antt =====
-- What a replay that nobody cancels counts, and how a job ends (pipelines/replay/replay_job.py).
use fraudstream.Prelude.{
  ℕ, suc, ◌+◌, ◌≡◌, inl, inr, refl, true, false, List, [], ◌∷◌, ◌++◌, none, some, arith,
  Option-cases, length,
}
use mathlib.Core.List.{append-nil, append_assoc}
use fraudstream.Replay.{
  running, completed, Job, World, finished, handle_event, replay_events, conclude, run_replay,
  start, new_job,
}

module _ {Event R : Type 0} (w : World Event R) where
  -- The results of the events that the scoring function takes.
  abbrev pub scored : List Event → List R
  scored [] = []
  scored (e ∷ events) = elim (w.process_event e) [
    | none ↦ scored events
    | some r ↦ r ∷ scored events
  ]

  -- How many events are scored and delivered.
  abbrev pub delivered : List Event → ℕ
  delivered [] = 0
  delivered (e ∷ events) =
      let rest = delivered events in
      elim (w.process_event e) [
        | none ↦ rest
        | some r ↦ elim (w.deliver r) [ true ↦ suc rest | false ↦ rest ]
      ]

  abbrev pub undelivered : List Event → ℕ
  undelivered [] = 0
  undelivered (e ∷ events) =
      let rest = undelivered events in
      elim (w.process_event e) [
        | none ↦ suc rest
        | some r ↦ elim (w.deliver r) [ true ↦ rest | false ↦ suc rest ]
      ]

  delivered_add : (events : List Event) → delivered events + undelivered events ≡ length events
  delivered_add [] = refl
  delivered_add (e ∷ events) = ground (arith, delivered_add events)

  pub handle_event-counts :
      (e : Event) (p f : ℕ) (events : List Event) (job : Job R)
      → let h = handle_event w e p f job in
        (h.0 + delivered events ≡ p + delivered (e ∷ events))
        × (h.1 + undelivered events ≡ f + undelivered (e ∷ events))
        × (h.2.results ++ scored events ≡ job.results ++ scored (e ∷ events))
        × (h.2.status ≡ job.status)
        × (h.2.failed_events ≡ job.failed_events)
  unfolding handle_event
  handle_event-counts e p f events job = elim (Option-cases (w.process_event e)) [
    | inl n ↦ ground (arith, n)
    | inr (r, n) ↦ ground (arith, n, append_assoc job.results (r ∷ []) (scored events))
  ]

  module _ (goes_on : (i : ℕ) → w.is_cancelled i ≡ false) where
    replay_events-finished :
        (i p f : ℕ) (events : List Event) (job : Job R)
        → let run = replay_events w false i p f events job in
          (run.0 ≡ finished (p + delivered events) (f + undelivered events))
          × (run.1.results ≡ job.results ++ scored events)
    unfolding replay_events
    replay_events-finished i p f [] job = ground (arith, append-nil job.results)
    replay_events-finished i p f (e ∷ events) job =
        let h = handle_event w e p f job in
        ground (
          arith,
          goes_on i,
          handle_event-counts e p f events job,
          replay_events-finished (i + 1) h.0 h.1 events h.2,
        )

    -- A job that nobody cancels, whose source can be read to its end and whose summary can be
    -- computed, completes: every event counts once, as processed if it was scored and delivered and
    -- else as failed, and the results are those of all scored events in order, the ones that could
    -- not be delivered included.
    pub start_completed :
        (n : ℕ) (events : List Event)
        → w.source ≡ some (record { event_count = n; events = events; breaks = false })
        → w.summarises (scored events) ≡ true
        → let job = (start w new_job).1 in
          (job.status ≡ completed)
          × (job.processed_events ≡ delivered events)
          × (job.failed_events ≡ undelivered events)
          × (job.processed_events + job.failed_events ≡ length events)
          × (job.results ≡ scored events)
    unfolding start run_replay conclude
    start_completed n events h k =
        let counting : Job R = record new_job { status = running; total_events = n } in
        ground (arith, h, replay_events-finished 0 0 0 events counting, delivered_add events)
