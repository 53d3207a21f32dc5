-- ===== src/Tests/Avro.antt =====
-- A frame with the schema id 258, whose body is read as it is.
use fraudstream.Prelude.{◌≡◌, refl, [], ◌∷◌, Option, none, some, arith}
use fraudstream.Prelude.Results.{ok, err}
use fraudstream.Processing.Avro.{
  Bytes, check_id, unpack_id, decode, decode_checked, deserialise, serialise,
}
use fraudstream.Processing.Avro.Framed.{deserialise-serialise}

abbrev as_it_is : Bytes → Option Bytes
as_it_is body = some body

deserialise-serialise_example :
    (payload : Bytes) × (serialise as_it_is (7 ∷ 8 ∷ []) 258 ≡ some payload)
    × (deserialise as_it_is as_it_is (some 258) payload ≡ elim (check_id (some 258) 258) [
      | none ↦ decode as_it_is as_it_is (7 ∷ 8 ∷ [])
      | some e ↦ err e
    ])
deserialise-serialise_example =
    deserialise-serialise as_it_is as_it_is as_it_is (7 ∷ 8 ∷ []) (7 ∷ 8 ∷ []) 258 (some 258) refl
      (omega arith)

frame_run : deserialise as_it_is as_it_is (some 258) (0 ∷ 0 ∷ 0 ∷ 1 ∷ 2 ∷ 7 ∷ []) ≡ ok (7 ∷ [])
unfolding deserialise unpack_id decode_checked check_id decode
frame_run = refl
