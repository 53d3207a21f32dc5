-- ===== src/Replay/Config.antt =====
-- The configuration of a replay and the choice of its source: ReplayConfig of pipelines/replay/models.py,
-- create_source_adapter of pipelines/replay/source_adapters.py and _get_source_config of
-- pipelines/replay/replay_job.py.
use fraudstream.Prelude.{ℕ, String, Bool, true, false, Option, if◌then◌else◌}
use fraudstream.Prelude.Equality.{◌==◌, string_eq}
use fraudstream.Prelude.Results.{Result, ok, err}
use fraudstream.Replay.Sources.Kafka
use fraudstream.Replay.Sources.Dlq

-- ReplaySource
pub data ReplaySource : Type 0 where
  iceberg kafka dlq : ReplaySource

pub record IcebergSourceConfig : Type 0 where
  pub table_name : String
  pub start_timestamp : String
  pub end_timestamp : String
  pub snapshot_id : Option ℕ
  pub filter_expression : Option String

-- The value of a field for a configuration, or of the argument of the factory: the annotations of a
-- dataclass are not checked, so a field may hold one of another class.
pub data SourceConfig : Type 0 where
  -- None
  no_config : SourceConfig
  of_iceberg : IcebergSourceConfig → SourceConfig
  of_kafka : Kafka.Config → SourceConfig
  of_dlq : Dlq.Config → SourceConfig
  of_other_class : SourceConfig

pub record ReplayConfig : Type 0 where
  pub source_type : ReplaySource
  pub iceberg_config : SourceConfig
  pub kafka_config : SourceConfig
  pub dlq_config : SourceConfig
  pub rule_set_version : Option String
  pub use_shadow_rules : Bool
  pub output_topic : String
  pub description : String

-- The messages of the ValueErrors and TypeErrors.
pub data ConfigError : Type 0 where
  required : ReplaySource → ConfigError
  wrong_type : ReplaySource → ConfigError
  unknown_source : String → ConfigError

abbrev pub is_none : SourceConfig → Bool
is_none no_config = true
is_none (of_iceberg _) = false
is_none (of_kafka _) = false
is_none (of_dlq _) = false
is_none of_other_class = false

abbrev pub require : ReplaySource → ReplayConfig → SourceConfig → Result ConfigError ReplayConfig
require t config field = if is_none field then err (required t) else ok config

-- ReplayConfig.__post_init__
unfoldable pub post_init : ReplayConfig → Result ConfigError ReplayConfig
post_init config = elim config.source_type [
  | iceberg ↦ require iceberg config config.iceberg_config
  | kafka ↦ require kafka config config.kafka_config
  | dlq ↦ require dlq config config.dlq_config
]

-- self.config.source_type.value
abbrev pub source_value : ReplaySource → String
source_value iceberg = "iceberg"
source_value kafka = "kafka"
source_value dlq = "dlq"

-- _get_source_config
unfoldable pub get_source_config : ReplayConfig → Result ConfigError SourceConfig
get_source_config config =
    let t = source_value config.source_type in
    if t == "iceberg"
    then ok config.iceberg_config
    else if t == "kafka"
    then ok config.kafka_config
    else if t == "dlq"
    then ok config.dlq_config
    else err (unknown_source t)

-- An adapter with its configuration; the Kafka ones have the brokers too.
pub data Adapter : Type 0 where
  iceberg_adapter : IcebergSourceConfig → Adapter
  kafka_adapter : Kafka.Config → String → Adapter
  dlq_adapter : Dlq.Config → String → Adapter

abbrev pub make_iceberg : SourceConfig → Result ConfigError Adapter
make_iceberg (of_iceberg c) = ok (iceberg_adapter c)
make_iceberg _ = err (wrong_type iceberg)

abbrev pub make_kafka : String → SourceConfig → Result ConfigError Adapter
make_kafka brokers (of_kafka c) = ok (kafka_adapter c brokers)
make_kafka brokers _ = err (wrong_type kafka)

abbrev pub make_dlq : String → SourceConfig → Result ConfigError Adapter
make_dlq brokers (of_dlq c) = ok (dlq_adapter c brokers)
make_dlq brokers _ = err (wrong_type dlq)

-- create_source_adapter(source_type, config, brokers=brokers)
unfoldable pub create_source_adapter : String → SourceConfig → String → Result ConfigError Adapter
create_source_adapter source_type config brokers =
    if source_type == "iceberg"
    then make_iceberg config
    else if source_type == "kafka"
    then make_kafka brokers config
    else if source_type == "dlq"
    then make_dlq brokers config
    else err (unknown_source source_type)

-- The first step of _run_replay.
unfoldable pub choose_adapter : ReplayConfig → String → Result ConfigError Adapter
unfolding get_source_config create_source_adapter
choose_adapter config brokers = elim (get_source_config config) [
  | err e ↦ err e
  | ok c ↦ create_source_adapter (source_value config.source_type) c brokers
]

-- A configuration is made, and a job with it chooses its adapter.
unfoldable pub adapter_of : ReplayConfig → String → Result ConfigError Adapter
unfolding post_init choose_adapter
adapter_of config brokers = elim (post_init config) [
  | err e ↦ err e
  | ok c ↦ choose_adapter c brokers
]
