-- ===== src/Rules/Metrics.antt =====
-- The counters of pipelines/scoring/metrics.py that the rule engine increments, as the sequence of
-- its increments.
use fraudstream.Prelude.{String}

pub data Increment : Type 0 where
  evaluation : String → String → Increment
  flag : String → String → String → Increment
  trigger : String → Increment
  shadow_trigger : String → Increment
  shadow_fp : String → Increment
