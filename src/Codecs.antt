-- ===== src/Codecs.antt =====
-- rust/src/codec.rs, rust/src/avro.rs: the methods of the `Codec` trait, for the codecs of the crate.
pub mod Whole
pub mod Failing
pub mod RoundTrip
pub mod Interchange
use fsspec_data.Prelude.{ℕ, Bool, true, Option, none, some, List, map, length}
use fsspec_data.Errors.{
  InterchangeError, Result, ok, err, panic, ◌>>=◌, io, codec_writer_not_supported,
}
use fsspec_data.Arrow.{Arrow, Outcome, done, failed}
use fsspec_data.Format
use fsspec_data.Format.{DataFormat}
use fsspec_data.Stream.{
  Tokens, StreamOptions, DecodedStream, default_options, new_token, collect_batches,
}
use fsspec_data.Registry.{
  BuiltIn, arrow_ipc_codec, parquet_codec, csv_codec, json_lines_codec, avro_codec,
}
use fsspec_data.Codec.{
  Encoder, Writer, ipc_start_owned_writer, parquet_start_owned_writer, csv_start_owned_writer,
  json_lines_start_owned_writer, avro_start_owned_writer, ipc_write_batch, parquet_write_batch,
  csv_write_batch, json_lines_write_batch, avro_write_batch, ipc_finish, parquet_finish, csv_finish,
  json_lines_finish, avro_finish, ipc_encode_stream, parquet_encode_stream, csv_encode_stream,
  json_lines_encode_stream, avro_encode_stream,
}
use fsspec_data.Reader.{Bytes, ByteReader}
use fsspec_data.Decoding.{Formats, decode_stream}

pub record CodecCapabilities : Type 0 where
  pub encode : Bool
  pub decode : Bool
  pub streaming : Bool

-- `ArrowIpcCodec::capabilities`
unfoldable pub ipc_capabilities : CodecCapabilities
ipc_capabilities = record { encode = true; decode = true; streaming = true }

-- `ParquetCodec::capabilities`
unfoldable pub parquet_capabilities : CodecCapabilities
parquet_capabilities = record { encode = true; decode = true; streaming = true }

-- `CsvCodec::capabilities`
unfoldable pub csv_capabilities : CodecCapabilities
csv_capabilities = record { encode = true; decode = true; streaming = true }

-- `JsonLinesCodec::capabilities`
unfoldable pub json_lines_capabilities : CodecCapabilities
json_lines_capabilities = record { encode = true; decode = true; streaming = true }

-- `AvroCodec::capabilities`
unfoldable pub avro_capabilities : CodecCapabilities
avro_capabilities = record { encode = true; decode = true; streaming = true }

-- `Codec::capabilities`
unfoldable pub capabilities : BuiltIn → CodecCapabilities
capabilities arrow_ipc_codec = ipc_capabilities
capabilities parquet_codec = parquet_capabilities
capabilities csv_codec = csv_capabilities
capabilities json_lines_codec = json_lines_capabilities
capabilities avro_codec = avro_capabilities

-- The writers of the five formats.
pub record Encoders (A : Arrow) : Type 1 where
  pub ipc : Encoder A
  pub parquet : Encoder A
  pub csv : Encoder A
  pub json_lines : Encoder A
  pub avro : Encoder A

pub record DecodedBatches (A : Arrow) : Type 0 where
  pub schema : A.Schema
  pub batches : List A.RecordBatch

module _ (A : Arrow) where
  -- `Codec::start_writer` and `start_owned_writer` of a codec that does not define them
  unfoldable pub default_start_writer : {W : Type 0} → DataFormat → A.Schema → Result A.external W
  default_start_writer format schema = err (codec_writer_not_supported (Format.as_str format))

  -- `Codec::decode_reader` of a codec that does not define it; the first argument is its
  -- `decode_stream`.
  unfoldable pub default_decode_reader :
      {D : Type 0} (R : ByteReader A.external)
      → (Bytes → Result A.external D)
      → R.State
      → Result A.external D
  default_decode_reader R decode reader = elim (R.read_to_end reader).0 [
    | done bytes ↦ decode bytes
    | failed e ↦ err (io e)
  ]

  module _ (E : Encoders A) where
    abbrev pub encoder : BuiltIn → Encoder A
    encoder arrow_ipc_codec = E.ipc
    encoder parquet_codec = E.parquet
    encoder csv_codec = E.csv
    encoder json_lines_codec = E.json_lines
    encoder avro_codec = E.avro

    -- `CodecWriter::write_batch`
    unfoldable pub write_batch :
        (codec : BuiltIn)
        → Writer A (encoder codec)
        → A.RecordBatch
        → Result A.external (Writer A (encoder codec))
    write_batch arrow_ipc_codec = ipc_write_batch A E.ipc
    write_batch parquet_codec = parquet_write_batch A E.parquet
    write_batch csv_codec = csv_write_batch A E.csv
    write_batch json_lines_codec = json_lines_write_batch A E.json_lines
    write_batch avro_codec = avro_write_batch A E.avro

    -- `CodecWriter::finish`
    unfoldable pub finish_writer :
        (codec : BuiltIn)
        → Writer A (encoder codec)
        → Result A.external (Encoder.State (encoder codec))
    finish_writer arrow_ipc_codec = ipc_finish A E.ipc
    finish_writer parquet_codec = parquet_finish A E.parquet
    finish_writer csv_codec = csv_finish A E.csv
    finish_writer json_lines_codec = json_lines_finish A E.json_lines
    finish_writer avro_codec = avro_finish A E.avro

    -- `Codec::start_owned_writer`
    unfoldable pub start_owned_writer :
        (codec : BuiltIn) → A.Schema → Result A.external (Writer A (encoder codec))
    start_owned_writer arrow_ipc_codec = ipc_start_owned_writer A E.ipc
    start_owned_writer parquet_codec = parquet_start_owned_writer A E.parquet
    start_owned_writer csv_codec = csv_start_owned_writer A E.csv
    start_owned_writer json_lines_codec = json_lines_start_owned_writer A E.json_lines
    start_owned_writer avro_codec = avro_start_owned_writer A E.avro

    -- `Codec::encode_stream`
    unfoldable pub encode_stream :
        (codec : BuiltIn)
        → A.Schema
        → List (Result A.external A.RecordBatch)
        → Result A.external (Encoder.State (encoder codec))
    encode_stream arrow_ipc_codec = ipc_encode_stream A E.ipc
    encode_stream parquet_codec = parquet_encode_stream A E.parquet
    encode_stream csv_codec = csv_encode_stream A E.csv
    encode_stream json_lines_codec = json_lines_encode_stream A E.json_lines
    encode_stream avro_codec = avro_encode_stream A E.avro

    -- `Codec::encode`
    unfoldable pub encode : BuiltIn → A.Schema → List A.RecordBatch → Result A.external Bytes
    encode codec schema batches = do
      s ← encode_stream codec schema (map ok batches)
      ok (Encoder.output (encoder codec) s)

  module _ (R : ByteReader A.external) (F : Formats A R) where
    -- what follows `collect_batches` in `decode`
    abbrev pub collected :
        A.Schema
        → Outcome (InterchangeError A.external) (List A.RecordBatch)
        → Result A.external (DecodedBatches A)
    collected schema (done batches) = ok (record { schema = schema; batches = batches })
    collected schema (failed e) = err e

    -- `Codec::decode`; `none` is fuel of `collect_batches` that ran out
    unfoldable pub decode :
        ℕ
        → Tokens
        → BuiltIn
        → Bytes
        → Option A.Schema
        → Option (Result A.external (DecodedBatches A))
    decode fuel tokens codec data' given =
        let (token, tokens') = new_token tokens in
        elim (decode_stream A R F codec given default_options token data') [
          | err e ↦ some (err e)
          | panic ↦ some panic
          | ok stream ↦ elim (collect_batches A fuel tokens' stream) [
            | none ↦ none
            | some outcome ↦ some (collected stream.schema outcome)
          ]
        ]
