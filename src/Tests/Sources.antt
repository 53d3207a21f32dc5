-- ===== src/Tests/Sources.antt =====
-- A partition with a message at every offset, and a dead-letter topic of two documents of the API.
use fraudstream.Prelude.{
  ℕ, zero, suc, ◌-◌, ◌≤◌, ◌<◌, ◌≡◌, refl, String, true, false, List, [], ◌∷◌, Option, none, some,
  arith, length, take,
}
use fraudstream.Prelude.Int.{pos, negsuc}
use fraudstream.Value.{int}
use text.Mathlib.TextEquality.{eq_iff}
use fraudstream.Json.{find_field, same_json, Fields, scalar, obj, field, end}
use fraudstream.Ingestion.Producer.Envelope.{Envelope, envelope}
use fraudstream.Replay.{World}
use fraudstream.Replay.Config.{
  ReplayConfig, SourceConfig, no_config, of_kafka, of_dlq, required, wrong_type, kafka_adapter,
  kafka, adapter_of,
}
use fraudstream.Prelude.Results.{ok, err}
use fraudstream.Replay.Sources.{Event}
use fraudstream.Replay.Sources.Kafka
use fraudstream.Replay.Sources.Kafka.Range.{
  RisesTo, Log, events_from, Advances, last_offset, iter_events-RisesTo, iter_events-events_from,
}
use fraudstream.Replay.Sources.Dlq.{
  Message, Poll, nothing, message, Config, Parser, Bounds, keep, Run, judge, event_of, iter_events,
  parse_bound, read_messages, is_untimely,
}
use fraudstream.Replay.Sources.Dlq.Reading.{answers, kept, AreBounds, iter_events-kept}
use fraudstream.Replay.Results.{ReplayResult, process_event}
use fraudstream.Replay.Results.ApiDlq.{IsFromApi}

abbrev range : Kafka.Config
range = record { topic = "txn.api"; partition = 0; start_offset = 4; end_offset = negsuc 0 }

abbrev full_partition : Kafka.Consumer String
full_partition = record {
  earliest = 0;
  latest = 7;
  watermark = some (some 7);
  poll = λ n at. Kafka.Poll.message (record { offset = at; key = none; value = some "{}" });
  parse = λ v. obj end;
}

full_partition-Advances : Advances range full_partition
full_partition-Advances n at m e = ground arith

abbrev log : Log range full_partition
log at = (none, "{}")

iter_events-RisesTo_example :
    (run : Kafka.Run) × (Kafka.iter_events range full_partition
        (suc (last_offset range full_partition full_partition-Advances - 4))
      ≡ some run)
    × RisesTo 4 (last_offset range full_partition full_partition-Advances) run.events
    × (length run.events ≤ last_offset range full_partition full_partition-Advances - 4)
iter_events-RisesTo_example = iter_events-RisesTo range full_partition full_partition-Advances

seven : Kafka.resolve_end range full_partition ≡ some 7
unfolding Kafka.resolve_end
seven = refl

iter_events-events_from_example :
    Kafka.iter_events range full_partition (suc (Kafka.get_event_count range full_partition))
    ≡ some (record {
      events = events_from range full_partition log 4 (Kafka.get_event_count range full_partition);
      raises = false;
    })
iter_events-events_from_example =
    iter_events-events_from range full_partition full_partition-Advances log 7 seven refl
      (omega arith) (λ n at from below. refl)

abbrev no_times : Parser
no_times v = none

abbrev dead_letters : Config
dead_letters = record {
  source_topic = "txn.api";
  start_time = none;
  end_time = none;
  max_messages = 10;
}

abbrev letter : Envelope
letter = record {
  dlq_id = "7";
  source_topic = "txn.api";
  original_payload = "{}";
  error_type = "ValueError";
  error_message = "amount";
  failed_at = pos 1;
  producer_host = "api";
  masking_applied = true;
}

abbrev document : ℕ → Message
document n = record { offset = n; value = some (obj (envelope letter)) }

abbrev two_letters : ℕ → Poll
two_letters zero = message (document 0)
two_letters (suc zero) = message (document 1)
two_letters (suc (suc n)) = nothing

abbrev no_bounds : Bounds
no_bounds = record { start = none; end = none }

two_letters-AreBounds : AreBounds no_times dead_letters two_letters no_bounds
unfolding parse_bound
two_letters-AreBounds = (refl, refl)

two_letters-IsFromApi : (i : ℕ) → IsFromApi (two_letters i)
two_letters-IsFromApi zero = (letter, refl)
two_letters-IsFromApi (suc zero) = (letter, refl)
two_letters-IsFromApi (suc (suc i)) = tt

iter_events-kept_example :
    (run : Run) × (iter_events no_times dead_letters two_letters 0 3 ≡ some run)
    × (run.events ≡ take 10 (kept no_times dead_letters no_bounds (answers two_letters 2 0)))
iter_events-kept_example =
    iter_events-kept no_times dead_letters two_letters 0 2 2 no_bounds two_letters-AreBounds refl
      refl

document_kept :
    (n : ℕ)
    → judge no_times dead_letters no_bounds (document n)
      ≡ keep (event_of no_times dead_letters n (envelope letter))
unfolding judge envelope find_field same_json is_untimely event_of
document_kept n = ground (arith, eq_iff "txn.api" "txn.api")

few_kept : length (kept no_times dead_letters no_bounds (answers two_letters 1 1)) < 10
few_kept = ground (arith, document_kept 1)

abbrev score : Fields → Option Fields
score payload = some (field "score" (scalar (int (pos 1))) end)

abbrev events_of : Option Run → List Event
events_of none = []
events_of (some run) = run.events

abbrev run_of_job : Run
run_of_job = record {
  events = event_of no_times dead_letters 1 (envelope letter) ∷ [];
  raises = false;
}

run_of_job_lem : iter_events no_times dead_letters two_letters 1 2 ≡ some run_of_job
unfolding iter_events parse_bound read_messages
run_of_job_lem = ground (arith, document_kept 1)

abbrev dlq_world : World Event ReplayResult
dlq_world = record {
  source = some (record { event_count = 2; events = run_of_job.events; breaks = false });
  process_event = process_event score;
  deliver = λ r. true;
  summarises = λ results. true;
  is_cancelled = λ i. false;
}

abbrev from_kafka : SourceConfig → ReplayConfig
from_kafka c = record {
  source_type = kafka;
  iceberg_config = no_config;
  kafka_config = c;
  dlq_config = no_config;
  rule_set_version = none;
  use_shadow_rules = true;
  output_topic = "txn.replay.results";
  description = "";
}

adapter_runs :
    (adapter_of (from_kafka (of_kafka range)) "kafka:9092" ≡ ok (kafka_adapter range "kafka:9092"))
    × (adapter_of (from_kafka no_config) "kafka:9092" ≡ err (required kafka))
    × (adapter_of (from_kafka (of_dlq dead_letters)) "kafka:9092" ≡ err (wrong_type kafka))
unfolding adapter_of
adapter_runs = (refl, refl, refl)
