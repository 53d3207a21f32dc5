-- ===== src/Processing/Velocity/History.antt =====
-- The velocity operator in its runtime: events, watermarks and timers in any order, and what each
-- emitted record must say (pipelines/processing/operators/velocity.py).
use fraudstream.Prelude.{ℕ, ◌≢◌, Bool, ◌||◌, List, [], ◌∷◌, if◌then◌else◌}
use fraudstream.Prelude.Int.{ℤ, pos, ◌-ℤ◌, ◌≤ℤ◌, ◌==ℤ◌, leb_ℤ, floor_div}
use fraudstream.Processing.Dlq.{Ambient}
use fraudstream.Processing.Velocity.{
  Total, no_total, add_total, one, Event, State, Output, rejected, emitted, VelocityFields,
  process_element, on_timer, bucket_of, no_watermark, minute_ms,
}

-- The accepted events from the minute `cutoff` on, added up.
unfoldable pub history_total : ℤ → List Event → Total
history_total cutoff [] = no_total
history_total cutoff (e ∷ history) =
    let rest = history_total cutoff history in
    if leb_ℤ cutoff (bucket_of e.event_time_ms) then add_total (one e.amount) rest else rest

-- What the record of the event `e` must say after the accepted events `history`: `e` included.
abbrev pub velocity_of : Event → List Event → VelocityFields
velocity_of e history =
    let minute = bucket_of e.event_time_ms in
    record {
      last_1m = history_total (minute -ℤ pos 1) (e ∷ history);
      last_5m = history_total (minute -ℤ pos 5) (e ∷ history);
      last_1h = history_total (minute -ℤ pos 60) (e ∷ history);
      last_24h = history_total (minute -ℤ pos 1440) (e ∷ history);
    }

pub record System : Type 0 where
  pub state : State
  pub watermark : ℤ
  -- the events accepted so far, the last one first
  pub history : List Event

abbrev pub initial : System
initial = record {
  state = record { buckets = []; timers = [] };
  watermark = no_watermark;
  history = [];
}

abbrev pub remember : Output → Event → List Event → List Event
remember (rejected d) e history = history
remember (emitted v l) e history = e ∷ history

-- The state after the operator was given an event.
abbrev pub receive_event : Ambient → ℕ → Event → System → System
receive_event a allowed e s =
    let (state', out) = process_element a allowed s.watermark e s.state in
    record s { state = state'; history = remember out e s.history }

-- The watermark only advances, and event-time timers fire once it has reached them.
pub data Step (allowed : ℕ) : System → System → Type 0 where
  receive : (a : Ambient) (e : Event) (s : System) → Step allowed s (receive_event a allowed e s)
  advance :
      (w : ℤ) (s : System)
      → s.watermark ≤ℤ w
      → w ≢ no_watermark
      → Step allowed s (record s { watermark = w })
  fire :
      (timestamp : ℤ) (s : System)
      → timestamp ≤ℤ s.watermark
      → s.watermark ≢ no_watermark
      → Step allowed s (record s { state = on_timer timestamp s.state })

pub data Reach (allowed : ℕ) : System → Type 0 where
  here : Reach allowed initial
  next : {s t : System} → Reach allowed s → Step allowed s t → Reach allowed t

-- The oldest minute that a window of an event in time reaches back to.
abbrev pub oldest_needed : ℕ → ℤ → ℤ
oldest_needed allowed watermark = floor_div (watermark -ℤ pos allowed) minute_ms -ℤ pos 1440

abbrev pub needed : ℕ → ℤ → ℤ → Bool
needed allowed watermark cutoff =
    (watermark ==ℤ no_watermark) || leb_ℤ (oldest_needed allowed watermark) cutoff
