-- ===== src/Codec.antt =====
-- rust/src/codec.rs, rust/src/avro.rs: the writers of the codecs, and their encoding of a stream of
-- batches.
pub mod Encoding
pub mod Writing
use fsspec_data.Prelude.{ℕ, List, [], ◌∷◌}
use fsspec_data.Errors.{InterchangeError, Result, ok, err, ◌>>=◌, guard, input_schema}
use fsspec_data.Arrow.{Arrow, Outcome, done, failed}

-- A writer of the arrow or the parquet crate: its state, with what it has put out, and its operations.
-- `convert` is the `From` of its error type.
pub record Encoder (A : Arrow) : Type 1 where
  pub State : Type 0
  -- the bytes put out so far
  pub output : State → List ℕ
  pub Fault : Type 0
  pub convert : Fault → InterchangeError A.external
  -- the constructor of the Arrow IPC, the Parquet and the Avro writer
  pub try_new : A.Schema → Outcome Fault State
  -- that of the CSV and the JSON writer, which takes no schema and does not fail
  pub build : State
  pub write : State → A.RecordBatch → Outcome Fault State
  pub flush : State → Outcome Fault State
  pub finish : State → Outcome Fault State
  -- what a write or a flush that fails leaves
  pub spoiled : State → A.RecordBatch → State

module _ (A : Arrow) where
  -- `validate_batch`
  unfoldable pub validate_batch : A.Schema → A.RecordBatch → Result A.external (Unit {0})
  validate_batch schema batch = guard (A.schema_eq (A.schema batch) schema) input_schema

  module _ (E : Encoder A) where
    -- `result?` on the encoder's error
    abbrev pub attempt : Outcome E.Fault E.State → Result A.external E.State
    attempt (done s) = ok s
    attempt (failed e) = err (E.convert e)

    -- `ArrowIpcWriter`, `ParquetWriter`, `CsvCodecWriter`, `JsonLinesCodecWriter` and
    -- `AvroCodecWriter`
    pub record Writer : Type 0 where
      pub schema : A.Schema
      pub writer : E.State

    -- `ArrowIpcCodec::start_writer`
    unfoldable pub ipc_start_writer : A.Schema → Result A.external Writer
    ipc_start_writer schema = do
      writer ← attempt (E.try_new schema)
      ok (record { schema = schema; writer = writer })

    -- `ArrowIpcCodec::start_owned_writer`
    unfoldable pub ipc_start_owned_writer : A.Schema → Result A.external Writer
    ipc_start_owned_writer schema = do
      writer ← attempt (E.try_new schema)
      ok (record { schema = schema; writer = writer })

    -- `ParquetCodec::start_writer`
    unfoldable pub parquet_start_writer : A.Schema → Result A.external Writer
    parquet_start_writer schema = do
      writer ← attempt (E.try_new schema)
      ok (record { schema = schema; writer = writer })

    -- `ParquetCodec::start_owned_writer`
    unfoldable pub parquet_start_owned_writer : A.Schema → Result A.external Writer
    parquet_start_owned_writer schema = do
      writer ← attempt (E.try_new schema)
      ok (record { schema = schema; writer = writer })

    -- `CsvCodec::start_writer`
    unfoldable pub csv_start_writer : A.Schema → Result A.external Writer
    csv_start_writer schema = ok (record { schema = schema; writer = E.build })

    -- `CsvCodec::start_owned_writer`
    unfoldable pub csv_start_owned_writer : A.Schema → Result A.external Writer
    csv_start_owned_writer schema = ok (record { schema = schema; writer = E.build })

    -- `JsonLinesCodec::start_writer`
    unfoldable pub json_lines_start_writer : A.Schema → Result A.external Writer
    json_lines_start_writer schema = ok (record { schema = schema; writer = E.build })

    -- `JsonLinesCodec::start_owned_writer`
    unfoldable pub json_lines_start_owned_writer : A.Schema → Result A.external Writer
    json_lines_start_owned_writer schema = ok (record { schema = schema; writer = E.build })

    -- `AvroCodec::start_writer`
    unfoldable pub avro_start_writer : A.Schema → Result A.external Writer
    avro_start_writer schema = do
      writer ← attempt (E.try_new schema)
      ok (record { schema = schema; writer = writer })

    -- `AvroCodec::start_owned_writer`
    unfoldable pub avro_start_owned_writer : A.Schema → Result A.external Writer
    avro_start_owned_writer schema = do
      writer ← attempt (E.try_new schema)
      ok (record { schema = schema; writer = writer })

    -- `write_batch` of `ArrowIpcWriter`
    unfoldable pub ipc_write_batch : Writer → A.RecordBatch → Result A.external Writer
    ipc_write_batch w batch = do
      valid ← validate_batch w.schema batch
      written ← attempt (E.write w.writer batch)
      flushed ← attempt (E.flush written)
      ok (record w { writer = flushed })

    -- `write_batch` of `ParquetWriter`
    unfoldable pub parquet_write_batch : Writer → A.RecordBatch → Result A.external Writer
    parquet_write_batch w batch = do
      valid ← validate_batch w.schema batch
      written ← attempt (E.write w.writer batch)
      flushed ← attempt (E.flush written)
      ok (record w { writer = flushed })

    -- `write_batch` of `CsvCodecWriter`
    unfoldable pub csv_write_batch : Writer → A.RecordBatch → Result A.external Writer
    csv_write_batch w batch = do
      valid ← validate_batch w.schema batch
      written ← attempt (E.write w.writer batch)
      ok (record w { writer = written })

    -- `write_batch` of `JsonLinesCodecWriter`
    unfoldable pub json_lines_write_batch : Writer → A.RecordBatch → Result A.external Writer
    json_lines_write_batch w batch = do
      valid ← validate_batch w.schema batch
      written ← attempt (E.write w.writer batch)
      ok (record w { writer = written })

    -- `write_batch` of `AvroCodecWriter`
    unfoldable pub avro_write_batch : Writer → A.RecordBatch → Result A.external Writer
    avro_write_batch w batch = do
      valid ← validate_batch w.schema batch
      written ← attempt (E.write w.writer batch)
      ok (record w { writer = written })

    -- `finish` of `ArrowIpcWriter`
    unfoldable pub ipc_finish : Writer → Result A.external E.State
    ipc_finish w = attempt (E.finish w.writer)

    -- `finish` of `ParquetWriter`
    unfoldable pub parquet_finish : Writer → Result A.external E.State
    parquet_finish w = attempt (E.finish w.writer)

    -- `finish` of `CsvCodecWriter`
    unfoldable pub csv_finish : Writer → Result A.external E.State
    csv_finish w = ok w.writer

    -- `finish` of `JsonLinesCodecWriter`
    unfoldable pub json_lines_finish : Writer → Result A.external E.State
    json_lines_finish w = attempt (E.finish w.writer)

    -- `finish` of `AvroCodecWriter`
    unfoldable pub avro_finish : Writer → Result A.external E.State
    avro_finish w = attempt (E.finish w.writer)

    -- the loop of `encode_stream`, over a `write_batch`
    unfoldable pub write_all :
        (Writer → A.RecordBatch → Result A.external Writer)
        → Writer
        → List (Result A.external A.RecordBatch)
        → Result A.external Writer
    write_all write_batch w [] = ok w
    write_all write_batch w (item ∷ items) = do
      batch ← item
      w' ← write_batch w batch
      write_all write_batch w' items

    -- `ArrowIpcCodec::encode_stream`
    unfoldable pub ipc_encode_stream :
        A.Schema → List (Result A.external A.RecordBatch) → Result A.external E.State
    ipc_encode_stream schema batches = do
      w ← ipc_start_writer schema
      w' ← write_all ipc_write_batch w batches
      ipc_finish w'

    -- `ParquetCodec::encode_stream`
    unfoldable pub parquet_encode_stream :
        A.Schema → List (Result A.external A.RecordBatch) → Result A.external E.State
    parquet_encode_stream schema batches = do
      w ← parquet_start_writer schema
      w' ← write_all parquet_write_batch w batches
      parquet_finish w'

    -- `CsvCodec::encode_stream`
    unfoldable pub csv_encode_stream :
        A.Schema → List (Result A.external A.RecordBatch) → Result A.external E.State
    csv_encode_stream schema batches = do
      w ← csv_start_writer schema
      w' ← write_all csv_write_batch w batches
      csv_finish w'

    -- `JsonLinesCodec::encode_stream`
    unfoldable pub json_lines_encode_stream :
        A.Schema → List (Result A.external A.RecordBatch) → Result A.external E.State
    json_lines_encode_stream schema batches = do
      w ← json_lines_start_writer schema
      w' ← write_all json_lines_write_batch w batches
      json_lines_finish w'

    -- `AvroCodec::encode_stream`
    unfoldable pub avro_encode_stream :
        A.Schema → List (Result A.external A.RecordBatch) → Result A.external E.State
    avro_encode_stream schema batches = do
      w ← avro_start_writer schema
      w' ← write_all avro_write_batch w batches
      avro_finish w'
