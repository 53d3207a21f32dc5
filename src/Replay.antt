-- ===== src/Replay.antt =====
-- pipelines/replay/replay_job.py: ReplayJob, one replay from its start to its end. The source
-- adapter, the scoring function, the sink and the callback are parameters. The times of the job are
-- not kept, but for whether it has an end. The loop never suspends, so no CancelledError reaches it;
-- making and closing the sink is taken not to raise.
pub mod Sources
pub mod Results
pub mod Sink
pub mod Counts
pub mod Config
pub mod Api
pub mod Cancelled
use fraudstream.Prelude.{
  ℕ, ◌+◌, ◌%◌, String, Bool, true, false, ◌&&◌, List, [], ◌∷◌, ◌++◌, Option, none, some, ◌==◌,
  length, if◌then◌else◌,
}
use fraudstream.Prelude.Results.{Result, ok, err}

-- ReplayStatus
pub data Status : Type 0 where
  pending running completed failed cancelled : Status

pub data StartError : Type 0 where
  already_started : Status → StartError

pub record Job (R : Type 0) : Type 0 where
  pub status : Status
  pub has_ended : Bool
  pub total_events : ℕ
  pub processed_events : ℕ
  pub failed_events : ℕ
  pub results : List R
  pub has_error : Bool

-- What the source gives: its count of events, the events, and whether reading on raises.
pub record Source (Event : Type 0) : Type 0 where
  pub event_count : ℕ
  pub events : List Event
  pub breaks : Bool

pub record World (Event R : Type 0) : Type 0 where
  -- none where the adapter cannot be made, opened or counted
  pub source : Option (Source Event)
  -- _process_event, none where it raises
  pub process_event : Event → Option R
  -- send_result and the callback, false where one raises
  pub deliver : R → Bool
  -- _compute_summary does not raise
  pub summarises : List R → Bool
  -- _cancelled at the check before each event
  pub is_cancelled : ℕ → Bool

-- How the loop over the events ends.
pub data End : Type 0 where
  finished : ℕ → ℕ → End
  stopped broken : End

-- is_active
abbrev pub is_active : {R : Type 0} → Job R → Bool
is_active job = elim job.status [
  | pending ↦ false
  | running ↦ true
  | completed ↦ false
  | failed ↦ false
  | cancelled ↦ false
]

module _ {Event R : Type 0} (w : World Event R) where
  -- Counted as processed; the status is updated at every hundredth event.
  abbrev pub count_processed : ℕ → Job R → Job R
  count_processed processed job =
      if processed % 100 == 0 then record job { processed_events = processed } else job

  abbrev pub keep_result : R → Job R → Job R
  keep_result r job = record job { results = job.results ++ r ∷ [] }

  -- The body of the loop's `try`, with its handler: the counts of processed and failed events.
  unfoldable pub handle_event : Event → ℕ → ℕ → Job R → ℕ × ℕ × Job R
  handle_event e processed failures job = elim (w.process_event e) [
    | none ↦ (processed, failures + 1, job)
    | some r ↦ elim (w.deliver r) [
      | true ↦ (processed + 1, failures, count_processed (processed + 1) (keep_result r job))
      | false ↦ (processed, failures + 1, keep_result r job)
    ]
  ]

  -- The loop of _run_replay, at check i.
  unfoldable pub replay_events : Bool → ℕ → ℕ → ℕ → List Event → Job R → End × Job R
  unfolding handle_event
  replay_events breaks i processed failures [] job =
      (if breaks then broken else finished processed failures, job)
  replay_events breaks i processed failures (e ∷ events) job =
      let (processed1, failures1, job1) = handle_event e processed failures job in
      let rest = replay_events breaks (i + 1) processed1 failures1 events job1 in
      if w.is_cancelled i then (stopped, record job { status = cancelled }) else rest

  -- The `except Exception` of start.
  abbrev pub fail : Job R → Job R
  fail job = record job { status = failed; has_error = true }

  -- _compute_summary returns at once if there are no results.
  abbrev pub summary_computes : List R → Bool
  summary_computes [] = true
  summary_computes (r ∷ results) = w.summarises (r ∷ results)

  -- The rest of _run_replay.
  unfoldable pub conclude : End → Job R → Job R
  conclude (finished processed failures) job =
      let counted = record job { processed_events = processed; failed_events = failures } in
      if summary_computes job.results then record counted { status = completed } else fail counted
  conclude stopped job = job
  conclude broken job = fail job

  -- _run_replay
  unfoldable pub run_replay : Job R → Job R
  unfolding replay_events conclude
  run_replay job = elim w.source [
    | none ↦ fail job
    | some s ↦
        let (end, job1) =
          replay_events s.breaks 0 0 0 s.events (record job { total_events = s.event_count }) in
        conclude end job1
  ]

  -- start; `some e` is an exception
  unfoldable pub start : Job R → Option StartError × Job R
  unfolding run_replay
  start job = elim job.status [
    | pending ↦ (none, record (run_replay (record job { status = running })) { has_ended = true })
    | running ↦ (some (already_started running), job)
    | completed ↦ (some (already_started completed), job)
    | failed ↦ (some (already_started failed), job)
    | cancelled ↦ (some (already_started cancelled), job)
  ]

-- ReplayJob.__init__
abbrev pub new_job : {R : Type 0} → Job R
new_job = record {
  status = pending;
  has_ended = false;
  total_events = 0;
  processed_events = 0;
  failed_events = 0;
  results = [];
  has_error = false;
}
