-- ===== src/Python.antt =====
-- rust/python/lib.rs: the functions and classes that Python calls. Schemas, batches and arrays cross as
-- themselves.
pub mod Objects
pub mod Schemas
pub mod Writers
pub mod Calls
pub mod Planned
use mathlib.Core.Option
use fsspec_data.Prelude.{
  ℕ, String, Bool, true, Option, none, some, List, [], ◌∷◌, map, length, ltb, if◌then◌else◌,
}
use fsspec_data.Errors.{
  Externals, InterchangeError, Result, ok, err, panic, ◌>>=◌, collect, unsupported_policy,
  codec_not_registered, codec_writer_not_supported, stream_cancelled, io,
}
use fsspec_data.Arrow.{Arrow, Outcome, done, failed}
use fsspec_data.Cast
use fsspec_data.Cast.{CastKind}
use fsspec_data.Format
use fsspec_data.Policy
use fsspec_data.HashMap.{HashMap}
use fsspec_data.Fields.{FieldMapping}
use fsspec_data.Operations.{ProjectionOptions, FieldAddition}
use fsspec_data.Plan.{InterchangePlan, plan_schema_with}
use fsspec_data.Stateful.{M, continue}
use fsspec_data.Stream
use fsspec_data.Stream.{Tokens, StreamOptions, DecodedStream, new_token, next, cancel}
use fsspec_data.Registry.{BuiltIn, lookup, default_registry}
use fsspec_data.Codec.{Encoder, Writer, validate_batch}
use fsspec_data.Reader.{Bytes, ByteReader, ℤ, pos, SeekFrom, start, current, end}
use fsspec_data.Decoding
use fsspec_data.Decoding.{Formats}
use fsspec_data.Codecs.{
  Encoders, CodecCapabilities, capabilities, DecodedBatches, encoder, write_batch, finish_writer,
  start_owned_writer, encode, decode,
}
use fsspec_data.Python.Objects.{ByteWriter, PySink, python_writer}
use fsspec_data.AvroValues
use fsspec_data.AvroValues.{AvroLibrary}

-- A Python exception of the module, with what its text tells.
pub data PyErr (X : Externals) : Type 0 where
  not_implemented_error : InterchangeError X → PyErr X
  runtime_error : InterchangeError X → PyErr X
  os_error : InterchangeError X → PyErr X
  value_error : InterchangeError X → PyErr X
  codec_writer_is_finished : PyErr X

-- `PyResult`, and a panic
pub data PyResult (X : Externals) (B : Type 0) : Type 0 where
  returned : B → PyResult X B
  raised : PyErr X → PyResult X B
  panicked : PyResult X B

-- `to_python_error`
unfoldable pub to_python_error : {X : Externals} → InterchangeError X → PyErr X
to_python_error (unsupported_policy p) = not_implemented_error (unsupported_policy p)
to_python_error (codec_not_registered f) = not_implemented_error (codec_not_registered f)
to_python_error (codec_writer_not_supported f) =
    not_implemented_error (codec_writer_not_supported f)
to_python_error stream_cancelled = runtime_error stream_cancelled
to_python_error (io e) = os_error (io e)
to_python_error e = value_error e

-- `map_err(to_python_error)`
unfoldable pub to_python : {X : Externals} {B : Type 0} → Result X B → PyResult X B
unfolding to_python_error
to_python (ok b) = returned b
to_python (err e) = raised (to_python_error e)
to_python panic = panicked

-- `codec_capabilities`
unfoldable pub codec_capabilities : {X : Externals} → String → PyResult X (Bool × Bool × Bool)
codec_capabilities format = to_python (do
  parsed ← Format.parse format
  codec ← lookup parsed default_registry
  let c = capabilities codec
  ok (c.encode, c.decode, c.streaming))

module _ (A : Arrow) where
  -- `avro_arrow_schema`
  unfoldable pub avro_arrow_schema : AvroLibrary A → String → PyResult A.external A.Schema
  avro_arrow_schema L schema = elim (AvroValues.avro_arrow_schema A L schema) [
    | done s ↦ returned s
    | failed e ↦ raised (to_python_error e)
  ]

  module _ (E : Encoders A) where
    -- `encode_batches`
    unfoldable pub encode_batches :
        String → A.Schema → List A.RecordBatch → PyResult A.external Bytes
    encode_batches format schema batches = to_python (do
      parsed ← Format.parse format
      codec ← lookup parsed default_registry
      encode A E codec schema batches)

    module _ (codec : BuiltIn) where
      -- `NativeCodecWriter`
      pub record NativeCodecWriter : Type 0 where
        pub writer : Option (Writer A (encoder A E codec))

      -- the writer after a `write_batch` that failed
      abbrev pub left_by :
          Writer A (encoder A E codec) → A.RecordBatch → Writer A (encoder A E codec)
      left_by w batch = elim (validate_batch A w.schema batch) [
        | ok u ↦ record w { writer = Encoder.spoiled (encoder A E codec) w.writer batch }
        | err e ↦ w
        | panic ↦ w
      ]

      -- `NativeCodecWriter::write_batch`
      unfoldable pub native_write_batch :
          A.RecordBatch → NativeCodecWriter → PyResult A.external (Unit {0}) × NativeCodecWriter
      native_write_batch batch s = elim s.writer [
        | none ↦ (raised codec_writer_is_finished, s)
        | some w ↦ elim (write_batch A E codec w batch) [
          | ok w' ↦ (returned tt, record { writer = some w' })
          | err e ↦ (raised (to_python_error e), record { writer = some (left_by w batch) })
          | panic ↦ (panicked, record { writer = some (left_by w batch) })
        ]
      ]

      -- `NativeCodecWriter::finish`. The value is what the writer has put out then, if there was one.
      unfoldable pub native_finish :
          NativeCodecWriter
          → PyResult A.external (Option (Encoder.State (encoder A E codec))) × NativeCodecWriter
      native_finish s = elim s.writer [
        | none ↦ (returned none, s)
        | some w ↦ elim (finish_writer A E codec w) [
          | ok out ↦ (returned (some out), record { writer = none })
          | err e ↦ (raised (to_python_error e), record { writer = none })
          | panic ↦ (panicked, record { writer = none })
        ]
      ]

  -- `start_codec_writer`. `over` is the writers of the crates, each over the `Write` that it owns.
  unfoldable pub start_codec_writer :
      (over : (W : ByteWriter A.external) → W.State → Encoders A) (W : PySink A.external)
      → String
      → A.Schema
      → (sink : W.State)
      → PyResult A.external
          ((codec : BuiltIn) × NativeCodecWriter (over (python_writer W) sink) codec)
  start_codec_writer over W format schema sink = to_python (do
    parsed ← Format.parse format
    codec ← lookup parsed default_registry
    w ← start_owned_writer A (over (python_writer W) sink) codec schema
    ok (codec, record { writer = some w }))

  module _ (R : ByteReader A.external) (F : Formats A R) where
    -- `decode_batches`; `none` is fuel of `decode` that ran out
    unfoldable pub decode_batches :
        ℕ
        → Tokens
        → String
        → Bytes
        → Option A.Schema
        → Option (PyResult A.external (A.Schema × List A.RecordBatch))
    decode_batches fuel tokens format data' schema =
        elim (Format.parse format >>= λ parsed. lookup parsed default_registry) [
          | err e ↦ some (raised (to_python_error e))
          | panic ↦ some panicked
          | ok codec ↦
              Option.map
                (λ r.
                  to_python
                    (r >>= λ (decoded : DecodedBatches A). ok (decoded.schema, decoded.batches)))
                (decode A R F fuel tokens codec data' schema)
        ]

    -- `decode_stream`: the schema and the `NativeBatchStream`, with the cells of the tokens
    unfoldable pub decode_stream :
        Tokens
        → String
        → Bytes
        → Option A.Schema
        → StreamOptions
        → PyResult A.external (A.Schema × DecodedStream A × Tokens)
    decode_stream tokens format data' schema options = to_python (do
      parsed ← Format.parse format
      codec ← lookup parsed default_registry
      let (token, tokens') = new_token tokens
      stream ← Decoding.decode_stream A R F codec schema options token data'
      ok (stream.schema, stream, tokens'))

    -- `decode_reader`, over a `PythonReader`
    unfoldable pub decode_reader :
        Tokens
        → String
        → R.State
        → Option A.Schema
        → StreamOptions
        → PyResult A.external (A.Schema × DecodedStream A × Tokens)
    decode_reader tokens format reader schema options = to_python (do
      parsed ← Format.parse format
      codec ← lookup parsed default_registry
      let (token, tokens') = new_token tokens
      stream ← Decoding.decode_reader A R F codec schema options token reader
      ok (stream.schema, stream, tokens'))

  -- `transpose`, `map(PyArrowType)` and `map_err`
  abbrev pub transposed : Option (Stream.Item A) → PyResult A.external (Option A.RecordBatch)
  transposed none = returned none
  transposed (some (done batch)) = returned (some batch)
  transposed (some (failed e)) = raised (to_python_error e)

  -- `NativeBatchStream::__next__`
  unfoldable pub native_next :
      Tokens → DecodedStream A → PyResult A.external (Option A.RecordBatch) × DecodedStream A
  native_next tokens s = (transposed (next A tokens s).0, (next A tokens s).1)

  -- `NativeBatchStream::cancel`
  unfoldable pub native_cancel : DecodedStream A → Tokens → Tokens
  native_cancel s tokens = cancel s.cancellation tokens
