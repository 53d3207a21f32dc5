-- ===== src/Ingestion/Producer/Envelope.antt =====
-- pipelines/ingestion/shared/dlq_producer.py: DLQProducer.send_to_dlq, the document that it writes.
use fraudstream.Prelude.{String, Bool}
use fraudstream.Prelude.Int.{ℤ}
use fraudstream.Value.{str, bool, int}
use fraudstream.Json.{Fields, scalar, field, end}

-- The arguments, and what the standard library supplies: uuid.uuid4(), the clock in ms and
-- socket.gethostname().
pub record Envelope : Type 0 where
  pub dlq_id : String
  pub source_topic : String
  pub original_payload : String
  pub error_type : String
  pub error_message : String
  pub failed_at : ℤ
  pub producer_host : String
  pub masking_applied : Bool

unfoldable pub envelope : Envelope → Fields
envelope e = field "dlq_id" (scalar (str e.dlq_id)) (
    field "source_topic" (scalar (str e.source_topic)) (
      field "original_payload" (scalar (str e.original_payload)) (
        field "error_type" (scalar (str e.error_type)) (
          field "error_message" (scalar (str e.error_message)) (
            field "failed_at" (scalar (int e.failed_at)) (
              field "producer_host" (scalar (str e.producer_host))
                (field "masking_applied" (scalar (bool e.masking_applied)) end)))))))
