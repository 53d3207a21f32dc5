-- ===== src/Tests/Replay.antt =====
-- A replay of numbers as events: a multiple of 3 cannot be scored, one of 5 cannot be delivered.
use fraudstream.Prelude.{
  ℕ, ◌+◌, ◌*◌, ◌/◌, take, ◌%◌, ◌<◌, ◌≡◌, refl, Bool, true, false, not, List, [], ◌∷◌, none, some,
  arith, ◌==◌, length, if◌then◌else◌,
}
use fraudstream.Replay.{Source, World, completed, cancelled, start, new_job}
use fraudstream.Replay.Cancelled.{start_cancelled}
use fraudstream.Replay.Counts.{scored, delivered, undelivered, start_completed}

abbrev events : List ℕ
events = 1 ∷ 2 ∷ 3 ∷ 4 ∷ 5 ∷ []

abbrev source : Source ℕ
source = record { event_count = 5; events = events; breaks = false }

abbrev pub world : (ℕ → Bool) → World ℕ ℕ
world is_cancelled = record {
  source = some source;
  process_event = λ e. if e % 3 == 0 then none else some (e * 10);
  deliver = λ r. not (r == 50);
  summarises = λ results. true;
  is_cancelled = is_cancelled;
}

abbrev pub never : ℕ → Bool
never i = false

abbrev before_fourth : ℕ → Bool
before_fourth i = i == 3

all_run :
    let job = (start (world never) new_job).1 in
    (job.status ≡ completed) × (job.processed_events ≡ 3) × (job.results ≡ 10 ∷ 20 ∷ 40 ∷ 50 ∷ [])
unfolding start
all_run = (refl, refl, refl)

stopped_run :
    let job = (start (world before_fourth) new_job).1 in
    (job.status ≡ cancelled) × (job.processed_events ≡ 0) × (job.results ≡ 10 ∷ 20 ∷ [])
unfolding start
stopped_run = (refl, refl, refl)

start_completed_example :
    let job = (start (world never) new_job).1 in
    (job.status ≡ completed)
    × (job.processed_events ≡ delivered (world never) events)
    × (job.failed_events ≡ undelivered (world never) events)
    × (job.processed_events + job.failed_events ≡ length events)
    × (job.results ≡ scored (world never) events)
start_completed_example = start_completed (world never) (λ i. refl) 5 events refl refl

before : (j : ℕ) → j < 3 → before_fourth j ≡ false
before j l = ground arith

early : (j : ℕ) → j < 3 → before_fourth j ≡ false
early j below = ground arith

start_cancelled_example :
    let job = (start (world before_fourth) new_job).1 in
    (job.status ≡ cancelled)
    × (job.results ≡ scored (world before_fourth) (take 3 events))
    × (job.processed_events ≡ delivered (world before_fourth) (take 3 events) / 100 * 100)
    × (job.failed_events ≡ 0)
start_cancelled_example =
    start_cancelled (world before_fourth) 3 source refl early refl (omega arith)
