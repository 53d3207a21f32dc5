-- ===== src/Replay/Sources/Dlq/Reading.antt =====
-- The reading of a dead-letter topic ends at the first poll with no message, and never at errors
-- (pipelines/replay/source_adapters.py).
use fraudstream.Prelude.{
  ℕ, zero, suc, ◌+◌, ◌-◌, ◌<◌, ◌≡◌, refl, true, List, [], ◌∷◌, none, some, arith, ltb, take, length,
  take-nil, take-all, take-cons, Bool-cases, inl, inr,
}
use fraudstream.Replay.Sources.{Event}
use fraudstream.Replay.Sources.Dlq.{
  Message, Poll, nothing, error, message, Config, Parser, Bounds, Verdict, keep, skip, raise, Run,
  yield_event, stop, parse_bound, judge, read_messages, iter_events, iter_events_of_job,
}

-- The answers to the k polls from the n-th on.
abbrev pub answers : (ℕ → Poll) → ℕ → ℕ → List Poll
answers poll zero n = []
answers poll (suc k) n = poll n ∷ answers poll k (suc n)

module _ (parse_time : Parser) (config : Config) (b : Bounds) where
  -- The events of the messages that are kept, up to the first poll with no message and the first
  -- message that raises.
  abbrev pub kept : List Poll → List Event
  kept [] = []
  kept (nothing ∷ polls) = []
  kept (error ∷ polls) = kept polls
  kept (message m ∷ polls) = elim (judge parse_time config b m) [
    | raise ↦ []
    | skip ↦ kept polls
    | keep e ↦ e ∷ kept polls
  ]

  module _ (poll : ℕ → Poll) where
    Reads : ℕ → ℕ → ℕ → Type 0
    Reads k n count =
        (run : Run) × (read_messages parse_time config poll b (suc k) n count ≡ some run)
        × (run.events ≡ take (config.max_messages - count) (kept (answers poll k n)))

    read_messages-judge :
        (k n count : ℕ)
        → ltb count config.max_messages ≡ true
        → (m : Message) → poll n ≡ message m
        → (v : Verdict) → judge parse_time config b m ≡ v
        → Reads k (suc n) count
        → Reads k (suc n) (suc count)
        → Reads (suc k) n count
    unfolding read_messages Reads
    read_messages-judge k n count go m e (keep event) j same more = (
      yield_event event more.0,
      ground (arith, e, go, j, more.1),
      ground (
        arith,
        e,
        j,
        more.2,
        take-cons config.max_messages count event (kept (answers poll k (suc n))),
      ),
    )
    read_messages-judge k n count go m e skip j same more =
        (same.0, ground (arith, e, go, j, same.1), ground (arith, e, j, same.2))
    read_messages-judge k n count go m e raise j same more = (
      record { events = []; raises = true },
      ground (arith, e, go, j),
      ground (arith, e, j, take-nil {A = Event} (config.max_messages - count)),
    )

    read_messages-poll :
        (k n count : ℕ)
        → ltb count config.max_messages ≡ true
        → (p : Poll) → poll n ≡ p
        → Reads k (suc n) count
        → Reads k (suc n) (suc count)
        → Reads (suc k) n count
    unfolding read_messages Reads
    read_messages-poll k n count go nothing e same more = (
      stop,
      ground (arith, e, go),
      ground (arith, e, take-nil {A = Event} (config.max_messages - count)),
    )
    read_messages-poll k n count go error e same more =
        (same.0, ground (arith, e, go, same.1), ground (arith, e, same.2))
    read_messages-poll k n count go (message m) e same more =
        read_messages-judge k n count go m e (judge parse_time config b m) refl same more

    read_messages-Reads :
        (k n count last : ℕ) → n + k ≡ last → poll last ≡ nothing → Reads k n count
    unfolding read_messages Reads
    read_messages-Reads zero n count last e h =
        let at : n ≡ last = omega (arith, e) in
        let here : poll n ≡ nothing = rw at h in
        (
          stop,
          ground (arith, here),
          ground (arith, take-nil {A = Event} (config.max_messages - count)),
        )
    read_messages-Reads (suc k) n count last e h =
        elim (Bool-cases (ltb count config.max_messages)) [
          | inl go ↦
              read_messages-poll k n count go (poll n) refl
                (read_messages-Reads k (suc n) count last (omega arith) h)
                (read_messages-Reads k (suc n) (suc count) last (omega arith) h)
          | inr done ↦
              let full : config.max_messages - count ≡ 0 = ground arith in
              (stop, ground (arith, done), rw full refl)
        ]

    read_messages_errors :
        (fuel n count : ℕ)
        → ((i : ℕ) → poll i ≡ error)
        → count < config.max_messages
        → read_messages parse_time config poll b fuel n count ≡ none
    unfolding read_messages
    read_messages_errors zero n count h go = refl
    read_messages_errors (suc fuel) n count h go =
        ground (arith, h n, read_messages_errors fuel (suc n) count h go)

module _ (parse_time : Parser) (config : Config) (poll : ℕ → Poll) where
  -- The bounds of the configuration.
  abbrev pub AreBounds : Bounds → Type 0
  AreBounds b =
      (parse_bound parse_time config config.start_time ≡ some b.start)
      × (parse_bound parse_time config config.end_time ≡ some b.end)

  -- Reading from the n-th poll on, where the k-th poll after that gives no message, ends within as many
  -- polls and one, and yields the events of the messages that are kept, in order and up to the first
  -- poll with no message and the first message that raises, max_messages of them at most.
  pub iter_events-kept :
      (n k last : ℕ) (b : Bounds)
      → AreBounds b
      → n + k ≡ last
      → poll last ≡ nothing
      → (run : Run) × (iter_events parse_time config poll n (suc k) ≡ some run)
        × (run.events ≡ take config.max_messages (kept parse_time config b (answers poll k n)))
  unfolding iter_events Reads
  iter_events-kept n k last b bounds e h =
      let go = read_messages-Reads parse_time config b poll k n 0 last e h in
      let max_all : config.max_messages - 0 ≡ config.max_messages = omega arith in
      (go.0, ground (arith, bounds.0, bounds.1, go.1), ground (arith, go.2, max_all))

  -- If every poll gives an error, reading never ends.
  pub iter_events_errors :
      (n fuel : ℕ) (b : Bounds)
      → AreBounds b
      → ((i : ℕ) → poll i ≡ error)
      → 0 < config.max_messages
      → iter_events parse_time config poll n fuel ≡ none
  unfolding iter_events
  iter_events_errors n fuel b bounds h go =
      ground
        (arith, bounds.0, bounds.1, read_messages_errors parse_time config b poll fuel n 0 h go)

-- A job loses the first message of a dead-letter topic: if it is kept and fewer than max_messages
-- others are, a reader that does not count first yields its event and then the events that the job
-- gets.
pub iter_events_of_job-loses :
    (parse_time : Parser) (config : Config) (poll : ℕ → Poll) (k : ℕ) (b : Bounds)
    → AreBounds parse_time config poll b
    → (m : Message) (e : Event) → poll 0 ≡ message m
    → judge parse_time config b m ≡ keep e
    → poll (suc k) ≡ nothing
    → length (kept parse_time config b (answers poll k 1)) < config.max_messages
    → (fresh : Run) × (job : Run) × (iter_events parse_time config poll 0 (suc (suc k))
        ≡ some fresh)
      × (iter_events_of_job parse_time config poll (suc k) ≡ some job)
      × (fresh.events ≡ e ∷ job.events)
unfolding iter_events_of_job
iter_events_of_job-loses parse_time config poll k b bounds m e first here last few =
    let fresh =
      iter_events-kept parse_time config poll 0 (suc k) (suc k) b bounds (omega arith) last in
    let job = iter_events-kept parse_time config poll 1 k (suc k) b bounds (omega arith) last in
    let rest = kept parse_time config b (answers poll k 1) in
    let both : kept parse_time config b (answers poll (suc k) 0) ≡ e ∷ rest =
      ground (arith, first, here) in
    (
      fresh.0,
      job.0,
      fresh.1,
      job.1,
      ground (
        arith,
        fresh.2,
        job.2,
        both,
        take-all config.max_messages (e ∷ rest),
        take-all config.max_messages rest,
      ),
    )
