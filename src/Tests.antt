-- ===== src/Tests.antt =====
-- Runs of the models on concrete inputs, and the theorems at inputs that meet their hypotheses.
mod Rules
mod Settings
mod Breaker
mod ShadowDecision
mod Processing
mod Avro
mod Geolocation
mod Ingestion
mod Iceberg
mod Loading
mod Alerts
mod Replay
mod Api
mod Sources
mod ResultSink
mod RuleModes
mod Publishing
mod Http
mod Features
mod Materializer
mod Analytics
