-- ===== src/Replay/Api.antt =====
-- pipelines/scoring/management_api.py: the endpoints of replay jobs, as a request with an accepted key
-- reaches them. The event loop runs an endpoint, or the task of a job, whole: neither awaits anything
-- that is not ready. What a configuration makes of a job is a parameter.
pub mod Settled
pub mod Pages
use fraudstream.Prelude.{
  ℕ, ◌+◌, ◌-◌, String, Bool, true, false, not, List, [], ◌∷◌, Option, none, some, leb, length, take,
  drop, if◌then◌else◌,
}
use fraudstream.Prelude.Int.{ℤ, pos, negsuc, ◌+ℤ◌}
use fraudstream.Prelude.Equality.{◌==◌, string_eq}
use fraudstream.Prelude.Dict.{Dict, get, put}
use fraudstream.Replay.{
  Status, pending, running, completed, failed, cancelled, Job, World, start, new_job,
}
use fraudstream.Replay.Config.{ReplaySource, iceberg, kafka, dlq}

-- CreateReplayJobRequest, by its source
pub record JobRequest : Type 0 where
  pub source_type : String
  pub has_iceberg_config : Bool
  pub has_kafka_config : Bool
  pub has_dlq_config : Bool

-- A job with its configuration's source and whether it was cancelled.
pub record Entry (R : Type 0) : Type 0 where
  pub source_type : ReplaySource
  pub job : Job R
  pub is_cancelled : Bool

pub data Reply (R : Type 0) : Type 0 where
  -- 422, 404, 409
  unprocessable not_found : Reply R
  conflict : Status → Reply R
  job_view : Job R → Reply R
  -- total_results, results
  results_view : ℕ → List R → Reply R
  -- the loop runs a task, which answers no request
  no_reply : Reply R

pub data Call : Type 0 where
  create_replay_job : String → JobRequest → Call
  get_replay_job : String → Call
  get_replay_results : String → ℤ → ℤ → Call
  cancel_replay_job : String → Call
  run_job : String → Call

abbrev require : Bool → ReplaySource → Option ReplaySource
require given t = if given then some t else none

-- _build_replay_config with ReplayConfig.__post_init__, none where the answer is 422
unfoldable pub build_replay_config : JobRequest → Option ReplaySource
build_replay_config request =
    if request.source_type == "iceberg"
    then require request.has_iceberg_config iceberg
    else if request.source_type == "kafka"
    then require request.has_kafka_config kafka
    else if request.source_type == "dlq"
    then require request.has_dlq_config dlq
    else none

-- An index of a slice of n elements.
abbrev pub clamp : ℤ → ℕ → ℕ
clamp (pos i) n = if leb i n then i else n
clamp (negsuc i) n = n - (i + 1)

-- results[offset : offset + limit]
unfoldable pub page {ℓ} : {A : Type ℓ} → ℤ → ℤ → List A → List A
unfolding ◌+ℤ◌
page offset limit results =
    let first = clamp offset (length results) in
    let last = clamp (offset +ℤ limit) (length results) in take (last - first) (drop first results)

abbrev pub has_ended : Status → Bool
has_ended pending = false
has_ended running = false
has_ended completed = true
has_ended failed = true
has_ended cancelled = true

-- _replay_jobs
abbrev pub Jobs : Type 0 → Type 0
Jobs R = Dict String (Entry R)

module _ {Event R : Type 0} (world : ReplaySource → World Event R) where
  -- run_job: start of a job, with its flag at every check
  unfoldable pub run_entry : Entry R → Entry R
  unfolding start
  run_entry e =
      let w = record (world e.source_type) { is_cancelled = λ i. e.is_cancelled } in
      record e { job = (start w e.job).1 }

  unfoldable pub handle : Call → Jobs R → Reply R × Jobs R
  unfolding get put build_replay_config page run_entry
  handle (create_replay_job id request) jobs = elim (build_replay_config request) [
    | none ↦ (unprocessable, jobs)
    | some t ↦ (
      job_view new_job,
      put id (record { source_type = t; job = new_job; is_cancelled = false }) jobs,
    )
  ]
  handle (get_replay_job id) jobs = elim (get id jobs) [
    | none ↦ (not_found, jobs)
    | some e ↦ (job_view e.job, jobs)
  ]
  handle (get_replay_results id offset limit) jobs = elim (get id jobs) [
    | none ↦ (not_found, jobs)
    | some e ↦ (results_view (length e.job.results) (page offset limit e.job.results), jobs)
  ]
  handle (cancel_replay_job id) jobs = elim (get id jobs) [
    | none ↦ (not_found, jobs)
    | some e ↦
        if has_ended e.job.status
        then (conflict e.job.status, jobs)
        else (job_view e.job, put id (record e { is_cancelled = true }) jobs)
  ]
  handle (run_job id) jobs = elim (get id jobs) [
    | none ↦ (no_reply, jobs)
    | some e ↦ (no_reply, put id (run_entry e) jobs)
  ]

  unfoldable pub handle_all : List Call → Jobs R → Jobs R
  unfolding handle
  handle_all [] jobs = jobs
  handle_all (c ∷ calls) jobs = handle_all calls (handle c jobs).1
