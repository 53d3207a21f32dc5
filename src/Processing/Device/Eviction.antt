-- ===== src/Processing/Device/Eviction.antt =====
-- When a profile is evicted (pipelines/processing/operators/device.py).
use fraudstream.Prelude.{◌≡◌, refl, String, false, none, some}
use fraudstream.Prelude.Int.{ℤ, pos, ◌+ℤ◌}
use fraudstream.Value.{Record, null, int, get_value}
use fraudstream.Processing.Device.{idle_ttl_ms, no_key, Processed, process_element, on_timer}

-- The state of a key after two events, the timer that the first one registered, and what the next
-- event is then told.
abbrev pub after_first_timer : String → ℤ → ℤ → ℤ → Record → Processed
after_first_timer key first second third geo =
    let once = process_element (some key) first geo none in
    let twice = process_element (some key) second geo once.state in
    let evicted = on_timer (first +ℤ pos idle_ttl_ms) twice.state in
    process_element (some key) third geo evicted

-- The same with no timer between.
abbrev pub without_timer : String → ℤ → ℤ → ℤ → Record → Processed
without_timer key first second third geo =
    let once = process_element (some key) first geo none in
    let twice = process_element (some key) second geo once.state in
    process_element (some key) third geo twice.state

-- The timer of a key's first event evicts the profile however recent the last event is: the event
-- after it is told that it is the first of the device and has no previous event, where the same
-- event with no timer between is told that it is the third.
pub first_timer_evicts :
    (key : String) (first second third : ℤ) (geo : Record)
    → no_key (some key) ≡ false
    → (get_value "device_txn_count" (after_first_timer key first second third geo).fields
        ≡ int (pos 1))
      × (get_value "prev_txn_time_ms" (after_first_timer key first second third geo).fields ≡ null)
      × (get_value "device_txn_count" (without_timer key first second third geo).fields
          ≡ int (pos 3))
      × (get_value "prev_txn_time_ms" (without_timer key first second third geo).fields
          ≡ int second)
unfolding process_element on_timer get_value
first_timer_evicts key first second third geo h = rw h (refl, refl, refl, refl)
