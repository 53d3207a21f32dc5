-- ===== src/Analytics.antt =====
-- analytics/consumers/kafka_consumer.py: the live feed of fraud alerts, a bounded queue that a consumer
-- thread fills and the dashboard empties. The Kafka client is a parameter, by what its polls give; the
-- lag, a gauge of its own, is left out.
pub mod Feed
pub mod Shown
use fraudstream.Prelude.{
  ℕ, zero, suc, ◌+◌, String, Bool, true, false, ◌||◌, List, [], ◌∷◌, ◌++◌, Option, none, some, ltb,
  not, length, if◌then◌else◌,
}
use fraudstream.Prelude.Equality.{◌==◌, string_eq}
use fraudstream.Decision.{Decision, allow, flag, block}

-- _SEVERITY_TO_DECISION.get(severity, "UNKNOWN"), none for UNKNOWN
unfoldable pub shown_decision : String → Option Decision
shown_decision severity =
    if severity == "critical"
    then some block
    else if severity == "high"
    then some block
    else if severity == "medium"
    then some flag
    else if severity == "low"
    then some allow
    else none

-- What happens next: the dashboard takes an alert, or a poll ends. An alert comes with the numbers of
-- alerts that the dashboard takes between the first try to queue it and the removal of the oldest, and
-- from there to the second try.
pub data Turn (A : Type 0) : Type 0 where
  dashboard_takes : Turn A
  no_message : Turn A
  undecodable : Turn A
  alert : A → ℕ → ℕ → Turn A
  -- the poll gives an error or raises
  consumer_fails : Turn A

pub record State (A : Type 0) : Type 0 where
  -- 0 for a queue with no bound
  pub queue_maxsize : ℕ
  pub queue : List A
  -- what left the queue, taken or thrown away
  pub removed : List A
  pub events_consumed : ℕ
  pub restarts : ℕ

module _ {A : Type 0} where
  abbrev pub init : ℕ → State A
  init queue_maxsize = record {
    queue_maxsize = queue_maxsize;
    queue = [];
    removed = [];
    events_consumed = 0;
    restarts = 0;
  }

  abbrev pub has_room : State A → Bool
  has_room s = not (ltb 0 s.queue_maxsize) || ltb (length s.queue) s.queue_maxsize

  -- get_nowait, where an empty queue is passed over
  unfoldable pub get_nowait : State A → State A
  get_nowait s = elim s.queue [
    | [] ↦ s
    | a ∷ queue ↦ record s { queue = queue; removed = s.removed ++ a ∷ [] }
  ]

  unfoldable pub take_many : ℕ → State A → State A
  unfolding get_nowait
  take_many zero s = s
  take_many (suc n) s = take_many n (get_nowait s)

  abbrev pub put : A → State A → State A
  put a s = record s { queue = s.queue ++ a ∷ []; events_consumed = s.events_consumed + 1 }

  -- The second put_nowait; its queue.Full is logged as a deserialization error.
  abbrev pub put_again : A → State A → State A
  put_again a s = if has_room s then put a s else s

  -- The body of the loop on an alert.
  unfoldable pub consume : A → ℕ → ℕ → State A → State A
  unfolding get_nowait take_many
  consume a before after s =
      if has_room s
      then put a s
      else put_again a (take_many after (get_nowait (take_many before s)))

  unfoldable pub step : Turn A → State A → State A
  unfolding get_nowait consume
  step dashboard_takes s = get_nowait s
  step no_message s = s
  step undecodable s = s
  step (alert a before after) s = consume a before after s
  step consumer_fails s = record s { restarts = s.restarts + 1 }

  unfoldable pub run : List (Turn A) → State A → State A
  unfolding step
  run [] s = s
  run (t ∷ turns) s = run turns (step t s)
