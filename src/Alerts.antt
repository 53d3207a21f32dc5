-- ===== src/Alerts.antt =====
-- The sinks of fraud alerts and shadow decisions: pipelines/scoring/sinks/alert_kafka.py,
-- pipelines/scoring/sinks/alert_postgres.py and _AlertSinkFunction of
-- pipelines/scoring/job_extension.py, which calls both for every alert.
pub mod Postgres
pub mod Kafka
pub mod Sink
pub mod ShadowDecision
