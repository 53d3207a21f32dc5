-- ===== src/Processing/Dlq.antt =====
-- pipelines/processing/shared/dlq_sink.py: the envelope of an event that cannot be processed.
use fraudstream.Prelude.{ℕ, String, List, Option}
use fraudstream.Prelude.Int.{ℤ}

-- An error's message, by its parts: `late event_time behind allowed` is the text "event_time=… is
-- …ms behind watermark (allowed=…ms)".
pub data Message : Type 0 where
  text : String → Message
  late : ℤ → ℤ → ℤ → Message

pub record DlqRecord : Type 0 where
  pub dlq_id : String
  pub source_topic : String
  pub source_partition : ℕ
  pub source_offset : ℕ
  pub transaction_id : Option String
  pub original_payload_bytes : List ℕ
  pub error_type : String
  pub error_message : Message
  pub watermark_at_rejection : Option ℤ
  pub event_time_at_rejection : Option ℤ
  pub failed_at : ℤ
  pub processor_host : String
  pub processor_subtask_index : ℕ

-- What the runtime supplies: uuid.uuid4(), the clock in ms, socket.gethostname().
pub record Ambient : Type 0 where
  pub uuid : String
  pub now_ms : ℤ
  pub host : String

-- build_dlq_record
unfoldable pub build_dlq_record :
    Ambient
    → String
    → ℕ
    → ℕ
    → List ℕ
    → String
    → Message
    → Option String
    → Option ℤ
    → Option ℤ
    → ℕ
    → DlqRecord
build_dlq_record a topic partition offset payload error_type message txn_id watermark event_time
      index =
    record {
      dlq_id = a.uuid;
      source_topic = topic;
      source_partition = partition;
      source_offset = offset;
      transaction_id = txn_id;
      original_payload_bytes = payload;
      error_type = error_type;
      error_message = message;
      watermark_at_rejection = watermark;
      event_time_at_rejection = event_time;
      failed_at = a.now_ms;
      processor_host = a.host;
      processor_subtask_index = index;
    }
