-- ===== src/Processing/Avro.antt =====
-- pipelines/processing/shared/avro_serde.py: the Confluent frame of an Avro message, a magic byte and
-- the id of the schema in four bytes before the body. A byte is a number below 256. fastavro is a
-- parameter.
pub mod Framed
use fraudstream.Prelude.{
  ℕ, ◌+◌, ◌*◌, ◌/◌, ◌%◌, Bool, true, false, List, [], ◌∷◌, ◌++◌, Option, none, some, ◌==◌, ltb,
  length, if◌then◌else◌,
}
use fraudstream.Prelude.Results.{Result, ok, err}

abbrev pub Bytes : Type 0
Bytes = List ℕ

-- SchemaValidationError, by its message
pub data SchemaError : Type 0 where
  too_short bad_magic : ℕ → SchemaError
  id_mismatch : ℕ → ℕ → SchemaError
  not_decoded : SchemaError

-- struct.unpack(">I", ...)
unfoldable pub unpack_id : ℕ → ℕ → ℕ → ℕ → ℕ
unpack_id a b c d = ((a * 256 + b) * 256 + c) * 256 + d

-- schema_id.to_bytes(4, "big"), none where it raises
unfoldable pub pack_id : ℕ → Option Bytes
pack_id n =
    if ltb n 4294967296
    then some (n / 16777216 ∷ n / 65536 % 256 ∷ n / 256 % 256 ∷ n % 256 ∷ [])
    else none

-- `expected_schema_id is not None and schema_id != expected_schema_id`
unfoldable pub check_id : Option ℕ → ℕ → Option SchemaError
check_id none got = none
check_id (some expected) got = if got == expected then none else some (id_mismatch got expected)

module _ {A T : Type 0} (read : Bytes → Option A) (to_transaction : A → Option T) where
  -- schemaless_reader, the conversion of the times and RawTransaction(**record)
  unfoldable pub decode : Bytes → Result SchemaError T
  decode body = elim (read body) [
    | none ↦ err not_decoded
    | some record_read ↦ elim (to_transaction record_read) [
      | none ↦ err not_decoded
      | some t ↦ ok t
    ]
  ]

  unfoldable pub decode_checked : Option ℕ → ℕ → Bytes → Result SchemaError T
  unfolding check_id decode
  decode_checked expected got body = elim (check_id expected got) [
    | some e ↦ err e
    | none ↦ decode body
  ]

  -- deserialise_raw_transaction
  unfoldable pub deserialise : Option ℕ → Bytes → Result SchemaError T
  unfolding unpack_id decode_checked
  deserialise expected (magic ∷ a ∷ b ∷ c ∷ d ∷ body) =
      if magic == 0 then decode_checked expected (unpack_id a b c d) body else err (bad_magic magic)
  deserialise expected payload = err (too_short (length payload))

module _ {R : Type 0} (write : R → Option Bytes) where
  -- serialise_enriched_transaction, none where it raises
  unfoldable pub serialise : R → ℕ → Option Bytes
  unfolding pack_id
  serialise record_written schema_id = elim (write record_written) [
    | none ↦ none
    | some body ↦ elim (pack_id schema_id) [ none ↦ none | some id ↦ some (0 ∷ id ++ body) ]
  ]
