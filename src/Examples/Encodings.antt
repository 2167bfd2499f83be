-- ===== src/Examples/Encodings.antt =====
-- A writer that keeps the row counts of its batches, and the encoding theorems at it.
use fsspec_data.Prelude.{◌≡◌, refl, inl, List, [], ◌∷◌, ◌++◌, ℕ, All}
use fsspec_data.Errors.{Result, ok, err, arrow, input_schema}
use fsspec_data.DataType.{type_eq}
use fsspec_data.Arrow.{done}
use fsspec_data.Codec.Writing.{encode_stream-written}
use fsspec_data.Codec.{
  parquet_encode_stream, csv_encode_stream, Encoder, ipc_encode_stream, json_lines_encode_stream,
  avro_encode_stream, ipc_start_writer, write_all, ipc_write_batch, validate_batch, ipc_finish,
}
use fsspec_data.Codec.Encoding.{IsOf, encode_stream-IsOf}
use fsspec_data.Examples.Toy.{externals, Batch, toy, toy-ArrowLaws}
use fsspec_data.Examples.Plans.{people, batch}

abbrev counter : Encoder toy
counter = record {
  State = List ℕ;
  output = λ s. s;
  Fault = ℕ;
  convert = λ e. arrow e;
  try_new = λ s. done [];
  build = [];
  write = λ s b. done (s ++ b.rows ∷ []);
  flush = λ s. done s;
  finish = λ s. done s;
  spoiled = λ s b. s;
}

encoded : ipc_encode_stream toy counter people (ok batch ∷ ok batch ∷ []) ≡ ok (2 ∷ 2 ∷ [])
unfolding ipc_encode_stream ipc_start_writer write_all ipc_write_batch validate_batch ipc_finish
    type_eq
encoded = refl

encode_stream-IsOf_example : All (IsOf toy counter people) (ok batch ∷ ok batch ∷ [])
encode_stream-IsOf_example =
    encode_stream-IsOf toy counter toy-ArrowLaws people (ok batch ∷ ok batch ∷ []) (2 ∷ 2 ∷ [])
      (inl encoded)

abbrev items : List (Result externals Batch)
items = ok batch ∷ ok batch ∷ err input_schema ∷ []

encode_stream-written_example :
    (ipc_encode_stream toy counter people items ≡ err input_schema)
    × (parquet_encode_stream toy counter people items ≡ err input_schema)
    × (csv_encode_stream toy counter people items ≡ err input_schema)
    × (json_lines_encode_stream toy counter people items ≡ err input_schema)
    × (avro_encode_stream toy counter people items ≡ err input_schema)
encode_stream-written_example =
    encode_stream-written toy counter toy-ArrowLaws people items (refl, (refl, (tt, tt)))
