-- ===== src/Lib.antt =====
-- FraudStream: a Kafka and Flink pipeline that masks card data, enriches transactions and scores
-- them for fraud (pipelines/).
--
-- How the parts interact. The ingestion API masks card numbers and produces transactions. The
-- stream processor drops duplicates, adds velocity counts of the account, a location and the
-- profile of the device, and assembles one enriched record. The scoring extension evaluates the
-- fraud rules on that record and derives a decision for every transaction and an alert for every
-- suspicious one. Alerts go to Kafka, then to PostgreSQL; enriched records and decisions go to Iceberg
-- tables through buffers. The management API changes the mode of a rule and runs replays.
--
-- Which file models which part.
--   Value          the values of records and conditions, with Python's operators on them
--   Rules          pipelines/scoring/rules/: Rules/Model (models.py), Rules/Families (families/*.py),
--                  Rules/RuleId (validate_rule_id), Rules/Loader (loader.py: `load`),
--                  Rules/Evaluator (RuleEvaluator.dispatch is `dispatch`), Rules/Shadow
--                  (ShadowRuleEvaluator.dispatch is `dispatch_shadow`), Rules/Metrics (the counters), Rules/Bridge
--                  (pipelines/processing/kafka_metrics_bridge.py);
--                  Rules/Outcome is the specification and its proofs
--   Decision       pipelines/scoring/job_extension.py: `evaluate` is _evaluate
--   Alerts         pipelines/scoring/sinks/: Alerts/Postgres (alert_postgres.py: `persist`),
--                  Alerts/Kafka (alert_kafka.py: `emit`), Alerts/ShadowDecision
--                  (shadow_decisions_kafka.py: `build_record`), and Alerts/Sink (_AlertSinkFunction.map of
--                  pipelines/scoring/job_extension.py: `map_alert`)
--   Breaker        pipelines/scoring/circuit_breaker.py and get_circuit_breaker_state of
--                  pipelines/scoring/management_api.py
--   Settings       pipelines/scoring/config.py: `scoring_config` is ScoringConfig()
--   Iceberg        the buffering sinks: pipelines/shared/iceberg_sink_base.py,
--                  pipelines/processing/operators/iceberg_sink.py and
--                  pipelines/scoring/sinks/iceberg_decisions.py, with one `invoke` and `flush` for
--                  all three and a function for what each does with a batch
--   Replay         pipelines/replay/: replay_job.py (`start` is ReplayJob.start), Replay/Config
--                  (models.py, create_source_adapter), Replay/Sources
--                  (source_adapters.py: Kafka and Dlq), Replay/Results (_process_event and
--                  models.py), Replay/Sink (result_sink.py), Replay/Api (the endpoints of
--                  pipelines/scoring/management_api.py: `handle`)
--   Analytics      analytics/consumers/kafka_consumer.py, the feed of the dashboard
--   RuleModes      pipelines/scoring/management_api.py: `demote_rule` and `promote_rule`
--   Features       pipelines/scoring/clients/feature_serving.py: `get_features`, and
--                  Features/Materializer (pipelines/processing/feature_materializer.py with
--                  pipelines/shared/feature_schema.py: `materialize`)
--   Processing     pipelines/processing/: Processing/Velocity, Processing/Device and
--                  Processing/Enricher, Processing/Geolocation (operators/*.py),
--                  Processing/Dlq (shared/dlq_sink.py), Processing/Avro (shared/avro_serde.py)
--   Ingestion      pipelines/ingestion/: Ingestion/Pan (shared/pii_masker/),
--                  Ingestion/Producer (api/producer.py: `publish`), Ingestion/Amount (its amounts),
--                  Ingestion/Http (its handler: `do_post` is do_POST)
--   Json           documents: what json.loads gives
--   Prelude        lists, dicts, integers, results and equality
--   Tests          runs on concrete inputs, and the theorems at inputs that meet their hypotheses
--
-- State. A Flink operator's keyed state is passed in and returned: the buckets and timers of one
-- account (Processing/Velocity), the profile of one API key (Processing/Device), the ids seen
-- and when (Processing/Enricher/Dedup). Processing/Velocity/History puts the velocity operator in its runtime
-- by a step relation: events, watermark advances and timers in any order. Where two threads share
-- an object (Replay/Sink, Analytics), a run is a list of the actions that one of them takes between
-- two points where the other can run, in any order.
--
-- Numbers. Times are Python ints, so integers ℤ; amounts are Decimals in units of 1/10000, the scale
-- of the Avro schema; scores are hundredths. Loops over polls of a consumer take fuel (Replay/Sources),
-- and none is the result where it runs out; the theorems there give a fuel that is enough, one more
-- than the offsets of the range or the polls up to the first with no message. Other loops are over lists.
--
-- Parameters. What `Decimal` makes of a text (`decimal_text`), the Unicode tables (`Unicode`), the
-- clock, uuid and host name (`now`, `Ambient`); the rules file, its YAML and pydantic (`Sources`);
-- how an append to an Iceberg table ends (`Table`); what the PostgreSQL server answers (`Server`);
-- what the Kafka producer raises and reports (`Emission`, `Report`); the source, the scoring function
-- and the sink of a replay (`World`); how a write of the rules file ends (`Write`);
-- ipaddress, float, int and uuid in the ingestion API (`Library`);
-- what the polls of a Kafka consumer give, which offsets its partition holds, and that it starts at the
-- first of them if the one it is assigned is none (`Poll`, `Consumer`, `Turn`); how Python compares
-- pybreaker's state objects (`StateEquality`); int, float and <= in the settings; and datetime.fromisoformat
-- (`Parser`); the feature store (`Fetch`, `Store`) and the conversions of its values (`convert`).
--
-- Not modelled: log lines and trace spans, which no result depends on; the processing-time TTL of 14
-- days of the velocity and device state, while the one of 48 h of TransactionDedup is modelled; the
-- Iceberg source of a replay, a scan of PyIceberg; pybreaker itself and the analytics pages.
-- An append to an Iceberg table that raises is taken as not committed.
mod Prelude
pub mod Value
pub mod Json
pub mod Rules
pub mod Decision
pub mod Iceberg
pub mod Alerts
pub mod Breaker
pub mod Replay
pub mod Settings
pub mod RuleModes
pub mod Features
pub mod Analytics
pub mod Ingestion
pub mod Processing
mod Tests
