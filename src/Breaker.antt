-- ===== src/Breaker.antt =====
-- pipelines/scoring/circuit_breaker.py and the breaker's state in pipelines/scoring/management_api.py.
-- pybreaker is a parameter: the calls that it makes of the listener, how a call through it ends, and its
-- own attributes at a request. It gives the listener state objects, not their names; Python's `==` of
-- two of them, and of one and a text, is a parameter too. A time is a number of milliseconds.
pub mod Silent
use fraudstream.Prelude.{
  ℕ, ◌+◌, String, Bool, true, false, not, ◌&&◌, List, [], ◌∷◌, Option, none, some, ltb,
  if◌then◌else◌,
}
use fraudstream.Prelude.Equality.{◌==◌, string_eq}

-- FraudCircuitBreakerListener, with the gauge of each of the three states and the counter of calls
-- that met an open circuit.
pub record Listener : Type 0 where
  pub gauge_closed : ℕ
  pub gauge_open : ℕ
  pub gauge_half_open : ℕ
  pub open_calls : ℕ
  pub opened_at : Option ℕ
  pub last_failure_time : Option ℕ

abbrev pub initial : Listener
initial = record {
  gauge_closed = 0;
  gauge_open = 0;
  gauge_half_open = 0;
  open_calls = 0;
  opened_at = none;
  last_failure_time = none;
}

-- Python's `==` on pybreaker's state objects.
pub record StateEquality (S : Type 0) : Type 0 where
  pub same_state : S → S → Bool
  pub is_text : S → String → Bool

-- What pybreaker tells the listener: a change from a state to another, a failure, both with the clock's
-- value, or a call with the name of the current state.
pub data Callback (S : Type 0) : Type 0 where
  changed : S → S → ℕ → Callback S
  failed : ℕ → Callback S
  calling : String → Callback S

module _ {S : Type 0} (eq : StateEquality S) where
  -- 1 if state == new_state else 0
  abbrev pub gauge : String → S → ℕ
  gauge state new_state = if eq.is_text new_state state then 1 else 0

  unfoldable pub state_change : S → S → ℕ → Listener → Listener
  state_change old_state new_state now l = record l {
    gauge_closed = gauge "closed" new_state;
    gauge_open = gauge "open" new_state;
    gauge_half_open = gauge "half_open" new_state;
    opened_at =
        if eq.is_text new_state "open" && not (eq.same_state old_state new_state)
        then some now
        else l.opened_at;
  }

  abbrev pub failure : ℕ → Listener → Listener
  failure now l = record l { last_failure_time = some now }

  -- The breaker's current_state is a name.
  abbrev pub before_call : String → Listener → Listener
  before_call current_state l =
      if current_state == "open" then record l { open_calls = l.open_calls + 1 } else l

  unfoldable pub on_callback : Callback S → Listener → Listener
  unfolding state_change
  on_callback (changed old_state new_state now) = state_change old_state new_state now
  on_callback (failed now) = failure now
  on_callback (calling current_state) = before_call current_state

  unfoldable pub on_callbacks : List (Callback S) → Listener → Listener
  unfolding on_callback
  on_callbacks [] l = l
  on_callbacks (c ∷ cs) l = on_callbacks cs (on_callback c l)

-- How the call through the breaker ends: with a probability, with one of the three exceptions that
-- are caught, or with another.
pub data CallEnd (P : Type 0) : Type 0 where
  scored : P → CallEnd P
  circuit_error client_error timed_out : CallEnd P
  other_error : CallEnd P

-- score_with_fallback, none where it raises
unfoldable pub score_with_fallback : {P : Type 0} → P → CallEnd P → Option (P × Bool)
score_with_fallback fallback_score (scored p) = some (p, false)
score_with_fallback fallback_score circuit_error = some (fallback_score, true)
score_with_fallback fallback_score client_error = some (fallback_score, true)
score_with_fallback fallback_score timed_out = some (fallback_score, true)
score_with_fallback fallback_score other_error = none

-- The attributes of a pybreaker.CircuitBreaker that the endpoint reads.
pub record Circuit : Type 0 where
  pub current_state : String
  pub fail_counter : ℕ
  pub reset_timeout : Option ℕ

pub record CircuitBreakerState : Type 0 where
  pub state : String
  pub failure_count : ℕ
  pub last_failure_time : Option ℕ
  pub next_probe_time : Option ℕ

-- The time of the next probe, if it is still to come.
abbrev pub probe_after : ℕ → ℕ → Option ℕ
probe_after now probe_ts = if ltb now probe_ts then some probe_ts else none

unfoldable pub next_probe : ℕ → String → Option ℕ → Option ℕ → Option ℕ
next_probe now state (some opened_at) (some reset_timeout) =
    if state == "open" then probe_after now (opened_at + reset_timeout) else none
next_probe now state _ _ = none

-- get_circuit_breaker_state at the clock's value `now`
unfoldable pub get_circuit_breaker_state : ℕ → Option (Circuit × Listener) → CircuitBreakerState
unfolding next_probe
get_circuit_breaker_state now none = record {
  state = "unknown";
  failure_count = 0;
  last_failure_time = none;
  next_probe_time = none;
}
get_circuit_breaker_state now (some (cb, listener)) = record {
  state = cb.current_state;
  failure_count = cb.fail_counter;
  last_failure_time = listener.last_failure_time;
  next_probe_time = next_probe now cb.current_state listener.opened_at cb.reset_timeout;
}
