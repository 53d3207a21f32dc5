-- ===== src/Replay/Api/Settled.antt =====
-- What the endpoints can meet of a replay job (pipelines/scoring/management_api.py).
use fraudstream.Prelude.{
  ℕ, ◌+◌, ◌≡◌, ◌≢◌, refl, String, Bool, true, false, List, [], ◌∷◌, some, arith, Option-cases,
  List-cases, Bool-cases, inl, inr, ◌⊎◌,
}
use fraudstream.Prelude.Equality.{◌==◌, string_eq}
use fraudstream.Prelude.Dict.{get, put, get-put}
use fraudstream.Replay.{
  running, cancelled, Job, World, End, finished, stopped, broken, handle_event, replay_events,
  conclude, run_replay, start, new_job,
}
use fraudstream.Replay.Cancelled.{HasEnded, start-HasEnded}
use fraudstream.Replay.Config.{ReplaySource}
use fraudstream.Replay.Api.{
  Entry, Call, create_replay_job, get_replay_job, get_replay_results, cancel_replay_job, run_job,
  build_replay_config, has_ended, Jobs, run_entry, handle, handle_all,
}

module _ {Event R : Type 0} (w : World Event R) where
  -- With no cancellation.
  IsFree : End × Job R → Type 0
  IsFree (finished p f, job) = Unit {0}
  IsFree (stopped, job) = ⊥
  IsFree (broken, job) = Unit {0}

  replay_events-IsFree :
      (breaks : Bool) (i p f : ℕ) (events : List Event) (job : Job R)
      → ((j : ℕ) → w.is_cancelled j ≡ false)
      → (replay_events w breaks i p f events job).0 ≢ stopped
  unfolding replay_events
  replay_events-IsFree true i p f [] job free = λ e. cc
  replay_events-IsFree false i p f [] job free = λ e. cc
  replay_events-IsFree breaks i p f (e ∷ events) job free =
      let next = handle_event w e p f job in
      ground (arith, free i, replay_events-IsFree breaks (i + 1) next.0 next.1 events next.2 free)

  conclude-free :
      (end : End) (job : Job R) → end ≢ stopped → (conclude w end job).status ≢ cancelled
  unfolding conclude
  conclude-free (finished p f) job h = ground (arith)
  conclude-free stopped job h = absurd (h refl)
  conclude-free broken job h = ground (arith)

  start_free : ((j : ℕ) → w.is_cancelled j ≡ false) → (start w new_job).1.status ≢ cancelled
  unfolding start run_replay
  start_free free = elim (Option-cases w.source) [
    | inl n ↦ ground (arith, n)
    | inr (s, n) ↦
        let counting : Job R = record new_job { status = running; total_events = s.event_count } in
        let run = replay_events w s.breaks 0 0 0 s.events counting in
        ground (
          arith,
          n,
          conclude-free run.0 run.1 (replay_events-IsFree s.breaks 0 0 0 s.events counting free),
        )
  ]

  start_flagged : ((j : ℕ) → w.is_cancelled j ≡ true) → (start w new_job).1.results ≡ []
  unfolding start run_replay replay_events conclude
  start_flagged flagged = elim (Option-cases w.source) [
    | inl n ↦ ground (arith, n)
    | inr (s, n) ↦ elim (List-cases s.events) [
      | inl none_left ↦ ground (arith, n, none_left)
      | inr (e, events, more) ↦ ground (arith, n, more, flagged 0)
    ]
  ]

-- A job that has not begun, or has ended. It was not cancelled, or has no results; and it was
-- cancelled, or does not show as cancelled.
abbrev pub IsSettled : {R : Type 0} → Entry R → Type 0
IsSettled e =
    ((e.job ≡ new_job) ⊎ HasEnded e.job)
    × ((e.is_cancelled ≡ false) ⊎ (e.job.results ≡ []))
    × ((e.is_cancelled ≡ true) ⊎ (e.job.status ≢ cancelled))

start_ended :
    {Event R : Type 0} (w : World Event R) (job : Job R) → HasEnded job → (start w job).1 ≡ job
unfolding start
start_ended w job h = ground (arith, h)

module _ {Event R : Type 0} (world : ReplaySource → World Event R) where
  AreSettled : Jobs R → Type 0
  AreSettled jobs = (id : String) (e : Entry R) → get id jobs ≡ some e → IsSettled e

  put-AreSettled :
      (id : String) (e : Entry R) (jobs : Jobs R)
      → IsSettled e
      → AreSettled jobs
      → AreSettled (put id e jobs)
  unfolding AreSettled
  put-AreSettled id e jobs settled all j f h = elim (Bool-cases (id == j)) [
    | inl same ↦
        let this : e ≡ f = ground (arith, h, get-put id j e jobs, same) in rw (← this) settled
    | inr differs ↦ all j f (ground (arith, h, get-put id j e jobs, differs))
  ]

  with_flag : Entry R → World Event R
  with_flag e = record (world e.source_type) { is_cancelled = λ i. e.is_cancelled }

  run_new-IsSettled : (e : Entry R) → e.job ≡ new_job → IsSettled (run_entry world e)
  unfolding run_entry with_flag
  run_new-IsSettled e h =
      let w = with_flag e in
      let ended : HasEnded (start w e.job).1 = start-HasEnded w e.job (ground (arith, h)) in
      elim (Bool-cases e.is_cancelled) [
        | inl yes_flag ↦
            let nothing : (start w e.job).1.results ≡ [] = rw h (start_flagged w (λ i. yes_flag)) in
            (inr ended, inr nothing, inl yes_flag)
        | inr no_flag ↦
            let shown : (start w e.job).1.status ≢ cancelled = rw h (start_free w (λ i. no_flag)) in
            (inr ended, inl no_flag, inr shown)
      ]

  run_entry-IsSettled : (e : Entry R) → IsSettled e → IsSettled (run_entry world e)
  unfolding run_entry with_flag
  run_entry-IsSettled e settled = elim settled.0 [
    | inl fresh ↦ run_new-IsSettled e fresh
    | inr ended ↦
        let same : (start (with_flag e) e.job).1 ≡ e.job = start_ended (with_flag e) e.job ended in
        rw same settled
  ]

  flag-IsSettled :
      (e : Entry R)
      → has_ended e.job.status ≡ false
      → IsSettled e
      → IsSettled (record e { is_cancelled = true })
  flag-IsSettled e open_job settled = elim settled.0 [
    | inl fresh ↦ (inl fresh, inr (ground (arith, fresh)), inl refl)
    | inr ended ↦ absurd (ground (arith, ended, open_job))
  ]

  same-AreSettled :
      {jobs : Jobs R} (after : Jobs R) → after ≡ jobs → AreSettled jobs → AreSettled after
  same-AreSettled after e all = rw e all

  handle-AreSettled :
      (c : Call) (jobs : Jobs R) → AreSettled jobs → AreSettled (handle world c jobs).1
  unfolding handle AreSettled
  handle-AreSettled (create_replay_job id request) jobs all =
      elim (Option-cases (build_replay_config request)) [
        | inl n ↦ same-AreSettled _ (ground (arith, n)) all
        | inr (t, n) ↦ same-AreSettled _ (ground (arith, n)) (
            put-AreSettled id (record { source_type = t; job = new_job; is_cancelled = false }) jobs
              (inl refl, inl refl, inr (λ e. cc)) all)
      ]
  handle-AreSettled (get_replay_job id) jobs all = same-AreSettled _ (ground arith) all
  handle-AreSettled (get_replay_results id offset limit) jobs all =
      same-AreSettled _ (ground arith) all
  handle-AreSettled (cancel_replay_job id) jobs all = elim (Option-cases (get id jobs)) [
    | inl n ↦ same-AreSettled _ (ground (arith, n)) all
    | inr (e, n) ↦ elim (Bool-cases (has_ended e.job.status)) [
      | inl closed ↦ same-AreSettled _ (ground (arith, n, closed)) all
      | inr open_job ↦ same-AreSettled _ (ground (arith, n, open_job)) (
          put-AreSettled id (record e { is_cancelled = true }) jobs
            (flag-IsSettled e open_job (all id e n)) all)
    ]
  ]
  handle-AreSettled (run_job id) jobs all = elim (Option-cases (get id jobs)) [
    | inl n ↦ same-AreSettled _ (ground (arith, n)) all
    | inr (e, n) ↦
        same-AreSettled _ (ground (arith, n))
          (put-AreSettled id (run_entry world e) jobs (run_entry-IsSettled e (all id e n)) all)
  ]

  handle_all-AreSettled :
      (calls : List Call) (jobs : Jobs R)
      → AreSettled jobs
      → AreSettled (handle_all world calls jobs)
  unfolding handle_all
  handle_all-AreSettled [] jobs all = all
  handle_all-AreSettled (c ∷ calls) jobs all =
      handle_all-AreSettled calls (handle world c jobs).1 (handle-AreSettled c jobs all)

  -- After any calls of the endpoints and any tasks that the loop ran, in any order: a job has not begun
  -- or has ended, so that none is ever seen running; one that was cancelled has no results; and only one
  -- that was cancelled shows as cancelled.
  pub handle_all-IsSettled :
      (calls : List Call) (id : String) (e : Entry R)
      → get id (handle_all world calls []) ≡ some e
      → IsSettled e
  unfolding AreSettled get
  handle_all-IsSettled calls id e h = handle_all-AreSettled calls [] (λ j f k. absurd (cc)) id e h
