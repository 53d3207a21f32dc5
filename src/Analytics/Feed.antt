-- ===== src/Analytics/Feed.antt =====
-- The feed is a bounded queue that drops its oldest alerts only (analytics/consumers/kafka_consumer.py).
use fraudstream.Prelude.{
  ℕ, zero, suc, ◌+◌, ◌≤◌, ◌<◌, ◌≡◌, inl, inr, refl, List, [], ◌∷◌, ◌++◌, arith, length,
  length-append, List-cases, Bool-cases,
}
use mathlib.Core.List.{append-nil, append_assoc}
use fraudstream.Analytics.{
  Turn, dashboard_takes, no_message, undecodable, alert, consumer_fails, State, init, has_room,
  get_nowait, take_many, put, consume, step, run,
}

module _ {A : Type 0} where
  -- The alerts that came in, and how often the consumer failed.
  abbrev pub alerts : List (Turn A) → List A
  alerts [] = []
  alerts (dashboard_takes ∷ turns) = alerts turns
  alerts (no_message ∷ turns) = alerts turns
  alerts (undecodable ∷ turns) = alerts turns
  alerts (alert a before after ∷ turns) = a ∷ alerts turns
  alerts (consumer_fails ∷ turns) = alerts turns

  abbrev pub failures : List (Turn A) → ℕ
  failures [] = 0
  failures (dashboard_takes ∷ turns) = failures turns
  failures (no_message ∷ turns) = failures turns
  failures (undecodable ∷ turns) = failures turns
  failures (alert a before after ∷ turns) = failures turns
  failures (consumer_fails ∷ turns) = suc (failures turns)

  IsBounded : State A → Type 0
  IsBounded s = (0 < s.queue_maxsize) × (length s.queue ≤ s.queue_maxsize)

  -- What a removal keeps: the alerts in order, the counters and the bound.
  Removes : State A → State A → Type 0
  Removes s u =
      (u.removed ++ u.queue ≡ s.removed ++ s.queue)
      × (length u.queue ≤ length s.queue)
      × (u.queue_maxsize ≡ s.queue_maxsize)
      × (u.events_consumed ≡ s.events_consumed)
      × (u.restarts ≡ s.restarts)

  get_nowait-Removes : (s : State A) → Removes s (get_nowait s)
  unfolding get_nowait Removes
  get_nowait-Removes s = elim (List-cases s.queue) [
    | inl e ↦ ground (arith, e)
    | inr (a, queue, e) ↦ ground (arith, e, append_assoc s.removed (a ∷ []) queue)
  ]

  get_nowait-room : (s : State A) → IsBounded s → length (get_nowait s).queue < s.queue_maxsize
  unfolding get_nowait IsBounded
  get_nowait-room s b = elim (List-cases s.queue) [
    | inl e ↦ ground (arith, e, b)
    | inr (a, queue, e) ↦ ground (arith, e, b)
  ]

  take_many-Removes : (n : ℕ) (s : State A) → Removes s (take_many n s)
  unfolding take_many Removes
  take_many-Removes zero s = ground arith
  take_many-Removes (suc n) s =
      ground (arith, get_nowait-Removes s, take_many-Removes n (get_nowait s))

  Gains : List A → State A → State A → Type 0
  Gains more s u =
      IsBounded u
      × (u.removed ++ u.queue ≡ (s.removed ++ s.queue) ++ more)
      × (u.events_consumed ≡ s.events_consumed + length more)

  put-Gains : (a : A) (s : State A) → length s.queue < s.queue_maxsize → Gains (a ∷ []) s (put a s)
  unfolding Gains IsBounded
  put-Gains a s room =
      ground (arith, length-append s.queue (a ∷ []), append_assoc s.removed s.queue (a ∷ []))

  consume-Gains :
      (a : A) (before after : ℕ) (s : State A)
      → IsBounded s
      → Gains (a ∷ []) s (consume a before after s)
        × ((consume a before after s).restarts ≡ s.restarts)
  unfolding consume IsBounded Removes Gains
  consume-Gains a before after s b = elim (Bool-cases (has_room s)) [
    | inl room ↦ ground (arith, room, b, put-Gains a s)
    | inr full ↦
        let s1 = take_many before s in
        let s2 = get_nowait s1 in
        let s3 = take_many after s2 in
        let r1 = take_many-Removes before s in
        let r2 = get_nowait-Removes s1 in
        let r3 = take_many-Removes after s2 in
        let small = get_nowait-room s1 (ground (arith, b, r1)) in
        let room : length s3.queue < s3.queue_maxsize = ground (arith, r1, r2, r3, small) in
        ground (arith, full, room, b, r1, r2, r3, put-Gains a s3 room)
  ]

  step-Gains :
      (t : Turn A) (s : State A)
      → IsBounded s
      → Gains (alerts (t ∷ [])) s (step t s)
        × ((step t s).restarts ≡ s.restarts + failures (t ∷ []))
  unfolding step Gains IsBounded Removes
  step-Gains dashboard_takes s b =
      ground (arith, b, get_nowait-Removes s, append-nil (s.removed ++ s.queue))
  step-Gains no_message s b = ground (arith, b, append-nil (s.removed ++ s.queue))
  step-Gains undecodable s b = ground (arith, b, append-nil (s.removed ++ s.queue))
  step-Gains (alert a before after) s b = ground (arith, consume-Gains a before after s b)
  step-Gains consumer_fails s b = ground (arith, b, append-nil (s.removed ++ s.queue))

  alerts-append :
      (t : Turn A) (turns : List (Turn A)) → alerts (t ∷ []) ++ alerts turns ≡ alerts (t ∷ turns)
  alerts-append dashboard_takes turns = refl
  alerts-append no_message turns = refl
  alerts-append undecodable turns = refl
  alerts-append (alert a before after) turns = refl
  alerts-append consumer_fails turns = refl

  failures-add :
      (t : Turn A) (turns : List (Turn A))
      → failures (t ∷ []) + failures turns ≡ failures (t ∷ turns)
  failures-add dashboard_takes turns = omega arith
  failures-add no_message turns = omega arith
  failures-add undecodable turns = omega arith
  failures-add (alert a before after) turns = omega arith
  failures-add consumer_fails turns = omega arith

  run-Gains :
      (turns : List (Turn A)) (s : State A)
      → IsBounded s
      → Gains (alerts turns) s (run turns s)
        × ((run turns s).restarts ≡ s.restarts + failures turns)
  unfolding run Gains IsBounded
  run-Gains [] s b = ground (arith, b, append-nil (s.removed ++ s.queue))
  run-Gains (t ∷ turns) s b =
      let u = step t s in
      let one = step-Gains t s b in
      ground (
        arith,
        one,
        run-Gains turns u one.0.0,
        alerts-append t turns,
        failures-add t turns,
        length-append (alerts (t ∷ [])) (alerts turns),
        append_assoc (s.removed ++ s.queue) (alerts (t ∷ [])) (alerts turns),
      )

  step-queue_maxsize : (t : Turn A) (s : State A) → (step t s).queue_maxsize ≡ s.queue_maxsize
  unfolding step consume Removes
  step-queue_maxsize dashboard_takes s = ground (arith, get_nowait-Removes s)
  step-queue_maxsize no_message s = refl
  step-queue_maxsize undecodable s = refl
  step-queue_maxsize (alert a before after) s =
      let s1 = take_many before s in
      let s2 = get_nowait s1 in
      ground (arith, take_many-Removes before s, get_nowait-Removes s1, take_many-Removes after s2)
  step-queue_maxsize consumer_fails s = refl

  run-queue_maxsize :
      (turns : List (Turn A)) (s : State A) → (run turns s).queue_maxsize ≡ s.queue_maxsize
  unfolding run
  run-queue_maxsize [] s = refl
  run-queue_maxsize (t ∷ turns) s =
      ground (arith, step-queue_maxsize t s, run-queue_maxsize turns (step t s))

  -- Whatever comes in and whenever the dashboard takes alerts, between the steps of the consumer too:
  -- what left the queue and what is in it are the alerts that came in, in order and each once, the
  -- queue keeps its bound, every alert counts as consumed and every failure as a restart.
  pub run_feed :
      (turns : List (Turn A)) (queue_maxsize : ℕ)
      → 0 < queue_maxsize
      → let s = run turns (init queue_maxsize) in
        (s.removed ++ s.queue ≡ alerts turns)
        × (length s.queue ≤ queue_maxsize)
        × (s.events_consumed ≡ length (alerts turns))
        × (s.restarts ≡ failures turns)
  unfolding Gains IsBounded
  run_feed turns queue_maxsize h =
      let go = run-Gains turns (init queue_maxsize) (h, omega arith) in
      ground (arith, go, run-queue_maxsize turns (init queue_maxsize))
