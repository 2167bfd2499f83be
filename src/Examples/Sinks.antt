-- ===== src/Examples/Sinks.antt =====
-- A codec writer over a sink of Python that has room for so many bytes only.
use fsspec_data.Prelude.{ℕ, ◌-◌, ◌≡◌, refl, ltb, ◌==◌, if◌then◌else◌, some, [], ◌∷◌, ◌++◌, length}
use fsspec_data.Errors.{arrow}
use fsspec_data.Arrow.{Outcome, done, failed}
use fsspec_data.Format
use fsspec_data.Registry.{lookup, default_registry}
use fsspec_data.Reader.{Bytes}
use fsspec_data.Codec.{
  Encoder, csv_encode_stream, csv_start_writer, write_all, csv_write_batch, validate_batch,
  csv_finish,
}
use fsspec_data.Codecs.{Encoders, encode_stream}
use fsspec_data.Python.{returned, raised, to_python, to_python_error}
use fsspec_data.Python.Objects.{ByteWriter, PySink, python_writer, python_write, python_flush}
use fsspec_data.Python.Writers.{session, streamed, session-encode_stream}
use fsspec_data.Examples.Toy.{externals}
use fsspec_data.Examples.Tables.{tables}
use fsspec_data.Examples.Decodings.{two_tables}

-- What a write of the bytes to the `Write` leaves; a short count is an error.
abbrev put : {S : Type 0} → Bytes → Bytes → Outcome ℕ ℕ × S → Outcome ℕ (S × Bytes)
put bytes out (done n, s) = if n == length bytes then done (s, out ++ bytes) else failed 20
put bytes out (failed e, s) = failed e

abbrev flushed : {S : Type 0} → Bytes → Outcome ℕ (Unit {0}) × S → Outcome ℕ (S × Bytes)
flushed out (done u, s) = done (s, out)
flushed out (failed e, s) = failed e

abbrev over_encoder : (W : ByteWriter externals) → W.State → Encoder tables
over_encoder W sink = record {
  State = W.State × Bytes;
  output = λ s. s.1;
  Fault = ℕ;
  convert = λ e. arrow e;
  try_new = λ schema. put (schema ∷ []) [] (W.write (schema ∷ []) sink);
  build = (sink, []);
  write = λ s b. put b.1 s.1 (W.write b.1 s.0);
  flush = λ s. flushed s.1 (W.flush s.0);
  finish = λ s. flushed s.1 (W.flush s.0);
  spoiled = λ s b. ((W.write b.1 s.0).1, s.1);
}

abbrev over : (W : ByteWriter externals) → W.State → Encoders tables
over W sink = record {
  ipc = over_encoder W sink;
  parquet = over_encoder W sink;
  csv = over_encoder W sink;
  json_lines = over_encoder W sink;
  avro = over_encoder W sink;
}

-- The sink raises where there is no room left, and takes what there is room for where it is too little.
abbrev small_sink : PySink externals
small_sink = record {
  State = ℕ;
  Object = ℕ;
  Exception = ℕ;
  call_write = λ bytes room.
      if room == 0
      then (failed 30, room)
      else (if ltb room (length bytes)
          then (done room, 0)
          else (done (length bytes), room - length bytes));
  call_flush = λ room. (done 0, room);
  as_usize = λ n. done n;
  python_io_error = λ e. e;
}

-- With room for three bytes the rows are put out; with room for two the sink raises, and with room for
-- one it cuts the first write short.
wide_enough :
    streamed tables (over (python_writer small_sink) 3) "csv" 4 two_tables
    ≡ returned (some (10 ∷ 11 ∷ 12 ∷ []))
unfolding to_python Format.parse lookup default_registry encode_stream csv_encode_stream
    csv_start_writer write_all csv_write_batch validate_batch csv_finish python_write python_flush
wide_enough = refl

raises :
    streamed tables (over (python_writer small_sink) 2) "csv" 4 two_tables
    ≡ raised (to_python_error (arrow 30))
unfolding to_python Format.parse lookup default_registry encode_stream csv_encode_stream
    csv_start_writer write_all csv_write_batch validate_batch csv_finish python_write python_flush
raises = refl

cut_short :
    streamed tables (over (python_writer small_sink) 1) "csv" 4 two_tables
    ≡ raised (to_python_error (arrow 20))
unfolding to_python Format.parse lookup default_registry encode_stream csv_encode_stream
    csv_start_writer write_all csv_write_batch validate_batch csv_finish python_write python_flush
cut_short = refl

session-encode_stream_example :
    session tables over small_sink "csv" 4 two_tables 2
    ≡ streamed tables (over (python_writer small_sink) 2) "csv" 4 two_tables
session-encode_stream_example = session-encode_stream tables over small_sink "csv" 4 two_tables 2
