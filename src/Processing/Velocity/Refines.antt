-- ===== src/Processing/Velocity/Refines.antt =====
-- The buckets hold what the windows need, whatever was evicted
-- (pipelines/processing/operators/velocity.py).
use fraudstream.Prelude.{ℕ, ◌≤◌, ◌≡◌, ◌≢◌, ◌∙◌, ◌∷◌, refl, Bool, true, false, arith}
use fraudstream.Prelude.Int.{ℤ, pos, ◌-ℤ◌, ◌≤ℤ◌, ==ℤ_iff, leb_ℤ, floor_div}
use fraudstream.Prelude.Dict.{keys}
use fraudstream.Processing.Dlq.{Ambient}
use fraudstream.Processing.Velocity.{
  no_total, Event, emitted, VelocityFields, process_element, on_timer, bucket_of, no_watermark,
  minute_ms, is_beyond, timer_cutoff, window, compute_velocity, add_event,
}
use fraudstream.Processing.Velocity.Totals.{
  buckets_total, sum_since-eq, buckets_total-add_event, buckets_total-remove_all, no_total-add,
}
use fraudstream.Processing.Velocity.History.{
  history_total, velocity_of, System, receive_event, Step, receive, advance, fire, Reach, here,
  next, needed,
}

floor_div_mono : (a b : ℤ) → a ≤ℤ b → floor_div a minute_ms ≤ℤ floor_div b minute_ms
floor_div_mono a b h = ground arith

-- Every window of an accepted event is needed.
accepted-needed :
    (allowed mins : ℕ) (watermark time : ℤ)
    → mins ≤ 1440
    → is_beyond allowed watermark time ≡ false
    → needed allowed watermark (bucket_of time -ℤ pos mins) ≡ true
unfolding ◌-ℤ◌
accepted-needed allowed mins watermark time h k =
    ground (arith, floor_div_mono (watermark -ℤ pos allowed) time)

-- A later watermark needs no older minutes.
needed_later :
    (allowed : ℕ) (v w cutoff : ℤ)
    → v ≤ℤ w
    → w ≢ no_watermark
    → needed allowed w cutoff ≡ true
    → needed allowed v cutoff ≡ true
unfolding ◌-ℤ◌
needed_later allowed v w cutoff h k n =
    ground (arith, ==ℤ_iff w no_watermark, floor_div_mono (v -ℤ pos allowed) (w -ℤ pos allowed))

-- The minutes that a timer evicts are older than what is needed when it fires.
timer_cutoff-needed :
    (allowed : ℕ) (timestamp watermark cutoff : ℤ)
    → allowed ≤ 41000
    → timestamp ≤ℤ watermark
    → watermark ≢ no_watermark
    → needed allowed watermark cutoff ≡ true
    → leb_ℤ (timer_cutoff timestamp) cutoff ≡ true
unfolding ◌-ℤ◌
timer_cutoff-needed allowed timestamp watermark cutoff h k m n =
    ground (arith, ==ℤ_iff watermark no_watermark)

-- The buckets agree with the history on every minute that an event in time may ask for.
abbrev pub IsExact : ℕ → System → Type 0
IsExact allowed s =
    (cutoff : ℤ)
    → needed allowed s.watermark cutoff ≡ true
    → buckets_total cutoff s.state.buckets ≡ history_total cutoff s.history

receive-IsExact :
    (a : Ambient) (allowed : ℕ) (e : Event) (s : System)
    → IsExact allowed s
    → IsExact allowed (receive_event a allowed e s)
unfolding process_element history_total
receive-IsExact a allowed e s h cutoff n = ground (
  arith,
  h cutoff,
  buckets_total-add_event cutoff (bucket_of e.event_time_ms) e.amount s.state.buckets,
)

fire-IsExact :
    (allowed : ℕ) (timestamp : ℤ) (s : System)
    → allowed ≤ 41000
    → timestamp ≤ℤ s.watermark
    → s.watermark ≢ no_watermark
    → IsExact allowed s
    → IsExact allowed (record s { state = on_timer timestamp s.state })
unfolding on_timer
fire-IsExact allowed timestamp s k le ne h cutoff n =
    buckets_total-remove_all (timer_cutoff timestamp) cutoff (keys s.state.buckets) s.state.buckets
      (timer_cutoff-needed allowed timestamp s.watermark cutoff k le ne n)
    ∙ h cutoff n

Step-IsExact :
    {allowed : ℕ} {s t : System}
    → allowed ≤ 41000
    → Step allowed s t
    → IsExact allowed s
    → IsExact allowed t
Step-IsExact {allowed} k (receive a e s) h = receive-IsExact a allowed e s h
Step-IsExact {allowed} k (advance w s le ne) h =
    λ cutoff n. h cutoff (needed_later allowed s.watermark w cutoff le ne n)
Step-IsExact {allowed} k (fire timestamp s le ne) h = fire-IsExact allowed timestamp s k le ne h

pub Reach-IsExact :
    {allowed : ℕ} {s : System} → allowed ≤ 41000 → Reach allowed s → IsExact allowed s
unfolding buckets_total history_total
Reach-IsExact k here = λ cutoff n. refl
Reach-IsExact k (next r st) = Step-IsExact k st (Reach-IsExact k r)

window-eq :
    (a : Ambient) (allowed mins : ℕ) (e : Event) (s : System)
    → mins ≤ 1440
    → IsExact allowed s
    → is_beyond allowed s.watermark e.event_time_ms ≡ false
    → let minute = bucket_of e.event_time_ms in
      window mins (add_event minute e.amount s.state.buckets) minute
      ≡ history_total (minute -ℤ pos mins) (e ∷ s.history)
unfolding window history_total
window-eq a allowed mins e s k h b =
    let minute = bucket_of e.event_time_ms in
    let cutoff = minute -ℤ pos mins in
    ground (
      arith,
      sum_since-eq cutoff no_total (add_event minute e.amount s.state.buckets),
      no_total-add (buckets_total cutoff (add_event minute e.amount s.state.buckets)),
      h cutoff,
      accepted-needed allowed mins s.watermark e.event_time_ms,
      buckets_total-add_event cutoff minute e.amount s.state.buckets,
    )

-- With an allowed lateness of at most 41 s, after any sequence of events, watermarks and timers,
-- the four windows of an emitted record are the counts and sums of all accepted events of the
-- account from 1, 5, 60 and 1440 minutes before its own minute on, its own event included: no
-- eviction has dropped one.
pub emitted-velocity_of :
    (a : Ambient) (allowed : ℕ) (e : Event) (s : System) {v : VelocityFields} {late : Bool}
    → allowed ≤ 41000
    → Reach allowed s
    → (process_element a allowed s.watermark e s.state).1 ≡ emitted v late
    → v ≡ velocity_of e s.history
unfolding process_element compute_velocity
emitted-velocity_of a allowed e s k r h =
    let exact = Reach-IsExact k r in
    ground (
      arith,
      window-eq a allowed 1 e s (omega arith) exact,
      window-eq a allowed 5 e s (omega arith) exact,
      window-eq a allowed 60 e s (omega arith) exact,
      window-eq a allowed 1440 e s (omega arith) exact,
    )
