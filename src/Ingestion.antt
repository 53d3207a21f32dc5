-- ===== src/Ingestion.antt =====
-- The ingestion API, pipelines/ingestion/.
pub mod Pan
pub mod Amount
pub mod Producer
pub mod Http
