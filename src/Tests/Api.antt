-- ===== src/Tests/Api.antt =====
-- The endpoints of two replay jobs, one of them cancelled before its task runs.
use fraudstream.Prelude.{ℕ, ◌≡◌, refl, true, false, List, [], ◌∷◌, some}
use fraudstream.Prelude.Equality.{string_eq}
use fraudstream.Prelude.Dict.{get, put}
use fraudstream.Replay.{World, start, new_job}
use fraudstream.Replay.Config.{ReplaySource, kafka}
use fraudstream.Replay.Api.{
  JobRequest, Entry, Call, create_replay_job, cancel_replay_job, run_job, build_replay_config,
  run_entry, handle, handle_all,
}
use fraudstream.Replay.Api.Settled.{IsSettled, handle_all-IsSettled}
use fraudstream.Tests.Replay.{world, never}

abbrev request : JobRequest
request = record {
  source_type = "kafka";
  has_iceberg_config = false;
  has_kafka_config = true;
  has_dlq_config = false;
}

abbrev numbers : ReplaySource → World ℕ ℕ
numbers t = world never

abbrev calls : List Call
calls =
    create_replay_job "a" request
    ∷ create_replay_job "b" request
    ∷ cancel_replay_job "a"
    ∷ run_job "a"
    ∷ run_job "b"
    ∷ cancel_replay_job "b"
    ∷ []

abbrev numbers_flagged : World ℕ ℕ
numbers_flagged = record (world never) { is_cancelled = λ i. true }

abbrev first_entry : Entry ℕ
first_entry = record {
  source_type = kafka;
  job = (start numbers_flagged (new_job {R = ℕ})).1;
  is_cancelled = true;
}

calls_run : get "a" (handle_all numbers calls []) ≡ some first_entry
unfolding handle_all handle get put build_replay_config run_entry
calls_run = refl

handle_all-IsSettled_example : IsSettled first_entry
handle_all-IsSettled_example = handle_all-IsSettled numbers calls "a" first_entry calls_run

abbrev four : List ℕ
four = 4 ∷ 5 ∷ 6 ∷ 7 ∷ []
