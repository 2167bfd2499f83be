-- ===== src/Decoding.antt =====
-- rust/src/codec.rs, rust/src/avro.rs: how the codecs open a source as a stream.
pub mod Opening
use fsspec_data.Prelude.{ℕ, Bool, true, Option, none, some, List, map}
use fsspec_data.Errors.{
  InterchangeError, Result, ok, err, ◌>>=◌, arrow, parquet, io, decode_schema_required,
}
use fsspec_data.Arrow.{Arrow, Outcome, done, failed}
use fsspec_data.Format
use fsspec_data.Format.{DataFormat}
use fsspec_data.Plan.{lift}
use fsspec_data.Stream.{StreamOptions, DecodedStream, Item, new}
use fsspec_data.Registry.{
  BuiltIn, arrow_ipc_codec, parquet_codec, csv_codec, json_lines_codec, avro_codec,
}
use fsspec_data.Reader.{Bytes, ByteReader, SeekableChunkReader, new_chunk_reader}

-- The readers of the arrow and the parquet crate. Each is built over a byte reader, and is the list of
-- the items that it then returns.
pub record Formats (A : Arrow) (R : ByteReader A.external) : Type 1 where
  -- `StreamReader::try_new` with no projection, and `schema`
  pub ipc_try_new :
      R.State
      → Outcome A.external.ArrowError
          (A.Schema × List (Outcome A.external.ArrowError A.RecordBatch))
  -- `ParquetRecordBatchReaderBuilder`
  pub Builder : Type 0
  pub parquet_try_new : SeekableChunkReader R → Outcome A.external.ParquetError Builder
  pub with_batch_size : ℕ → Builder → Builder
  pub builder_schema : Builder → A.Schema
  pub build :
      Builder → Outcome A.external.ParquetError (List (Outcome A.external.ArrowError A.RecordBatch))
  -- `CsvReaderBuilder`: the schema, `with_header`, `with_batch_size`, `build`
  pub csv_build :
      A.Schema
      → Bool
      → ℕ
      → R.State
      → Outcome A.external.ArrowError (List (Outcome A.external.ArrowError A.RecordBatch))
  -- `JsonReaderBuilder`: the schema, `with_batch_size`, `build`
  pub json_build :
      A.Schema
      → ℕ
      → R.State
      → Outcome A.external.ArrowError (List (Outcome A.external.ArrowError A.RecordBatch))
  -- `ReaderBuilder` of arrow-avro: `with_batch_size`, `build`, and `schema`
  pub avro_build :
      ℕ
      → R.State
      → Outcome A.external.ArrowError
          (A.Schema × List (Outcome A.external.ArrowError A.RecordBatch))

-- `required_schema`
unfoldable pub required_schema :
    (A : Arrow) → DataFormat → Option A.Schema → Result A.external A.Schema
required_schema A format (some schema) = ok schema
required_schema A format none = err (decode_schema_required (Format.as_str format))

module _ (A : Arrow) where
  -- `batch.map_err(InterchangeError::from)`
  abbrev pub from_item : Outcome A.external.ArrowError A.RecordBatch → Item A
  from_item (done batch) = done batch
  from_item (failed e) = failed (arrow e)

  -- `result?` on an error of parquet
  abbrev pub lift_parquet : {B : Type 0} → Outcome A.external.ParquetError B → Result A.external B
  lift_parquet (done b) = ok b
  lift_parquet (failed e) = err (parquet e)

  module _ (R : ByteReader A.external) (F : Formats A R) (given : Option A.Schema)
      (options : StreamOptions) (cancellation : ℕ) where
    -- `ArrowIpcCodec::decode_reader`
    unfoldable pub ipc_decode_reader : R.State → Result A.external (DecodedStream A)
    ipc_decode_reader reader = do
      opened ← lift A (F.ipc_try_new reader)
      new A opened.0 (map from_item opened.1) options cancellation

    -- `ParquetCodec::decode_reader`
    unfoldable pub parquet_decode_reader : R.State → Result A.external (DecodedStream A)
    parquet_decode_reader reader = do
      chunks ← new_chunk_reader R reader
      plain ← lift_parquet (F.parquet_try_new chunks)
      let builder = F.with_batch_size options.batch_size plain
      let schema = F.builder_schema builder
      items ← lift_parquet (F.build builder)
      new A schema (map from_item items) options cancellation

    -- `CsvCodec::decode_reader`
    unfoldable pub csv_decode_reader : R.State → Result A.external (DecodedStream A)
    csv_decode_reader reader = do
      schema ← required_schema A Format.csv given
      items ← lift A (F.csv_build schema true options.batch_size reader)
      new A schema (map from_item items) options cancellation

    -- `JsonLinesCodec::decode_reader`
    unfoldable pub json_lines_decode_reader : R.State → Result A.external (DecodedStream A)
    json_lines_decode_reader reader = do
      schema ← required_schema A Format.json_lines given
      items ← lift A (F.json_build schema options.batch_size reader)
      new A schema (map from_item items) options cancellation

    -- `AvroCodec::decode_reader`
    unfoldable pub avro_decode_reader : R.State → Result A.external (DecodedStream A)
    avro_decode_reader reader = do
      opened ← lift A (F.avro_build options.batch_size reader)
      new A opened.0 (map from_item opened.1) options cancellation

  module _ (R : ByteReader A.external) (F : Formats A R) where
    -- `Codec::decode_reader`
    unfoldable pub decode_reader :
        BuiltIn
        → Option A.Schema
        → StreamOptions
        → ℕ
        → R.State
        → Result A.external (DecodedStream A)
    unfolding ipc_decode_reader parquet_decode_reader csv_decode_reader json_lines_decode_reader
        avro_decode_reader
    decode_reader arrow_ipc_codec = ipc_decode_reader R F
    decode_reader parquet_codec = parquet_decode_reader R F
    decode_reader csv_codec = csv_decode_reader R F
    decode_reader json_lines_codec = json_lines_decode_reader R F
    decode_reader avro_codec = avro_decode_reader R F

    -- `ArrowIpcCodec::decode_stream`: a cursor over the data, with no schema: the format has its own
    unfoldable pub ipc_decode_stream :
        Option A.Schema → StreamOptions → ℕ → Bytes → Result A.external (DecodedStream A)
    ipc_decode_stream given options cancellation data' =
        ipc_decode_reader R F none options cancellation (R.cursor data')

    -- `ParquetCodec::decode_stream`: a cursor over the data, with no schema: the format has its own
    unfoldable pub parquet_decode_stream :
        Option A.Schema → StreamOptions → ℕ → Bytes → Result A.external (DecodedStream A)
    parquet_decode_stream given options cancellation data' =
        parquet_decode_reader R F none options cancellation (R.cursor data')

    -- `CsvCodec::decode_stream`: a cursor over the data
    unfoldable pub csv_decode_stream :
        Option A.Schema → StreamOptions → ℕ → Bytes → Result A.external (DecodedStream A)
    csv_decode_stream given options cancellation data' =
        csv_decode_reader R F given options cancellation (R.cursor data')

    -- `JsonLinesCodec::decode_stream`: a cursor over the data
    unfoldable pub json_lines_decode_stream :
        Option A.Schema → StreamOptions → ℕ → Bytes → Result A.external (DecodedStream A)
    json_lines_decode_stream given options cancellation data' =
        json_lines_decode_reader R F given options cancellation (R.cursor data')

    -- `AvroCodec::decode_stream`: a cursor over the data, with no schema: the format has its own
    unfoldable pub avro_decode_stream :
        Option A.Schema → StreamOptions → ℕ → Bytes → Result A.external (DecodedStream A)
    avro_decode_stream given options cancellation data' =
        avro_decode_reader R F none options cancellation (R.cursor data')

    -- `Codec::decode_stream`
    unfoldable pub decode_stream :
        BuiltIn → Option A.Schema → StreamOptions → ℕ → Bytes → Result A.external (DecodedStream A)
    unfolding ipc_decode_stream parquet_decode_stream csv_decode_stream json_lines_decode_stream
        avro_decode_stream
    decode_stream arrow_ipc_codec = ipc_decode_stream
    decode_stream parquet_codec = parquet_decode_stream
    decode_stream csv_codec = csv_decode_stream
    decode_stream json_lines_codec = json_lines_decode_stream
    decode_stream avro_codec = avro_decode_stream
