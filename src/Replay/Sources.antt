-- ===== src/Replay/Sources.antt =====
-- pipelines/replay/source_adapters.py: the adapters that read the events of a replay from a Kafka
-- partition and from a dead-letter topic. The consumers are parameters.
pub mod Kafka
pub mod Dlq
use fraudstream.Prelude.{ℕ, String, List}
use fraudstream.Json.{Json}

-- How the text of a message's id is made.
pub data EventId : Type 0 where
  given : String → EventId
  -- f"{topic}-{partition}-{offset}"
  position : String → ℕ → ℕ → EventId
  -- f"dlq-{offset}"
  dlq_offset : ℕ → EventId
  -- any other value of a document
  document : Json → EventId

-- An event, by its fields that a replay reads; its time, which is a text or missing.
pub record Event : Type 0 where
  pub event_id : EventId
  pub payload : Json
  pub offset : ℕ
