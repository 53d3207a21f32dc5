-- ===== src/Breaker/Silent.antt =====
-- What the listener makes of pybreaker's state objects (pipelines/scoring/circuit_breaker.py), and what the
-- endpoint then says of the next probe (pipelines/scoring/management_api.py).
use fraudstream.Prelude.{
  ℕ, ◌+◌, ◌≡◌, String, false, List, [], ◌∷◌, Option, none, some, if◌then◌else◌,
}
use fraudstream.Prelude.Equality.{◌==◌, string_eq}
use fraudstream.Breaker.{Listener, StateEquality, Callback, changed, failed, calling}

-- The clock at the last failure.
abbrev pub last_failure : {S : Type 0} → Option ℕ → List (Callback S) → Option ℕ
last_failure t [] = t
last_failure t (changed old_state new_state now ∷ cs) = last_failure t cs
last_failure t (failed now ∷ cs) = last_failure (some now) cs
last_failure t (calling current_state ∷ cs) = last_failure t cs

-- How many calls met an open circuit.
abbrev pub open_calls_of : {S : Type 0} → List (Callback S) → ℕ
open_calls_of [] = 0
open_calls_of (changed old_state new_state now ∷ cs) = open_calls_of cs
open_calls_of (failed now ∷ cs) = open_calls_of cs
open_calls_of (calling current_state ∷ cs) =
    let rest = open_calls_of cs in if current_state == "open" then 1 + rest else rest

module _ {S : Type 0} (eq : StateEquality S) where
  -- A state object equals no text: Python's `==` where a class defines none.
  abbrev pub NoTextIsEqual : Type 0
  NoTextIsEqual = (s : S) (t : String) → eq.is_text s t ≡ false

  module _ (differ : NoTextIsEqual) where
    -- The listener has no time of opening, gauges of 0, and counts what it should of the rest.
    abbrev pub silent : Option ℕ → ℕ → Listener
    silent failure_time calls = record {
      gauge_closed = 0;
      gauge_open = 0;
      gauge_half_open = 0;
      open_calls = calls;
      opened_at = none;
      last_failure_time = failure_time;
    }
