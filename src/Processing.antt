-- ===== src/Processing.antt =====
-- The stream processor, pipelines/processing/.
pub mod Dlq
pub mod Avro
pub mod Velocity
pub mod Device
pub mod Enricher
pub mod Geolocation
