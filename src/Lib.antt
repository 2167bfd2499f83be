-- ===== src/Lib.antt =====
-- fsspec-data: the Rust core that plans and carries out the interchange of tabular data.
--
-- The program plans how batches of a provided schema become batches of a requested one under a schema
-- policy, applies such plans to batches, and reads sources as streams of batches with limits and
-- cancellation. Its parts here, with the files that model them:
--
-- * Errors (rust/src/error.rs): the error type, one constructor for each variant, and `Result` with a
--   third outcome `panic` for an index out of range or an `expect` that fails.
-- * DataType, Arrow, Arrow/Laws: what the source takes from the arrow crate. The variants of `DataType`
--   that the source names are constructors, all others are one constructor over a parameter. Fields,
--   schemas, arrays, batches and their operations are the fields of the record `Arrow`; `ArrowLaws` and
--   Stream/Rows `RowLaws` name the documented behaviour that proofs use. Examples/Toy and
--   Examples/Streams hold instances of them.
-- * Cast, Format, Policy (rust/src/plan.rs): `CastKind` and `CastRegistry::classify`, `DataFormat` and
--   `SchemaPolicy` with their names.
-- * Fields (rust/src/plan.rs): `plan_field_descriptors` and the planners `plan_exact`,
--   `plan_projection`, `plan_compatible` and `plan_coerce`, which map provided fields to requested ones.
-- * HashMap, Operations (rust/src/plan.rs): `plan_operations`, the planner for renames, defaults, drops
--   and casts, with `plan_mapping` and `plan_addition`. A map is the list of its entries in the order
--   that iteration takes them.
-- * Plan (rust/src/plan.rs): `InterchangePlan`, `plan_schema`, `plan_schema_with`, `apply_batch` and
--   `apply_stream`. `plan_schema_with` calls Fields where there are no options and Operations otherwise;
--   `apply_batch` follows the mappings and additions that they made, with arrow's casts.
-- * Stream (rust/src/stream.rs): `CancellationToken` as an index of a list of cells, which clones of a
--   token share; `StreamOptions`; `DecodedStream` as the state that `new` makes and `next` passes on,
--   with the iterator behind it as the list of the items that it has left; `collect_batches`.
-- * Registry (rust/src/codec.rs, rust/src/plan.rs): `CodecRegistry` with `register` and `get`,
--   `DEFAULT_REGISTRY` over the names of its five codecs, and the entry point `plan`, which looks both
--   formats of a request up before it calls `plan_schema_with`.
-- * Codec (rust/src/codec.rs, rust/src/avro.rs): `validate_batch` and, for each of the five codecs, the
--   `start_writer`, `start_owned_writer` and `encode_stream` of the codec and the `write_batch` and
--   `finish` of its writer. The writers of the arrow, parquet and arrow-avro crates are the record
--   `Encoder`, whose state holds what has been written; `build` is the start of the CSV and the JSON
--   writer, `try_new` that of the others.
-- * Stateful, for Reader, AvroValues and Python: methods on `&mut self` that return a `Result`, as
--   state passing in which a call that fails keeps the state it leaves.
-- * Reader (rust/src/codec.rs): `dyn CodecReader` as the record `ByteReader`, and over it `SharedReader`
--   and `SeekableChunkReader`, with the reader behind their lock as one state.
-- * Decoding (rust/src/codec.rs, rust/src/avro.rs): `decode_reader` and `decode_stream` of the five
--   codecs. The readers of the other crates are the record `Formats`; each is the list of the items
--   that it returns, which Stream then takes.
-- * Codecs (rust/src/codec.rs): the `Codec` trait over the five codecs, with `encode`, `decode` and the
--   other methods that the trait defines, from Codec, Decoding and Stream. `ReadsBack` in its child
--   RoundTrip has a law for each operation of a format's writer and one for its reader, of batches of
--   one schema with rows that the format can represent; Examples/Tables holds an instance.
-- * AvroValues (rust/src/avro.rs): `AvroValueDecoder` with `new`, `push`, `set_aside` and `flush`,
--   `avro_arrow_schema`, and `AvroValueEncoder`. What the source takes from arrow-avro is the record
--   `AvroLibrary`; `DecoderLaws` in its child Contents, and `Between` in Values, the decoders of one
--   schema and store between two values, name the documented behaviour that proofs use; Examples/Framing holds
--   an instance.
-- * Python, Python/Objects, Python/Schemas (rust/python/lib.rs): the functions that Python calls, over
--   Registry, Codecs, Decoding, AvroValues and Plan, with `to_python_error`; `NativeCodecWriter` and
--   `NativeBatchStream`; `PythonReader` and `PythonWriter` over the records `PySource` and `PySink` of
--   the methods of a Python object; `plan_schema`. `start_codec_writer` takes the writers of the other
--   crates over a `Write`, the record `ByteWriter`, as a parameter and gives them the Python sink.
--
-- Child modules hold the proofs. Those of Plan are
-- {Filling,Writing,Columns,Settles,Loops,Applying,Proper,Total,Reshaping}, with
-- {Fields,Checks,Operations} below Total; the others
-- Cast/{Order,Integers,Names}, Fields/{Exact,Nesting,Projecting,Accepting},
-- Operations/{Fills,Sources,Planning,Entries,Usage,Checks,Filling,Feeding,Looping,Accepting},
-- Stream/{Rows,Steps,Next,Sound,Collecting,Ending,Sequences,Bytes,Counting,Failing}, Registry/Lookup,
-- Codec/{Encoding,Writing}, Reader/Isolation, Decoding/Opening,
-- Codecs/{Whole,Failing,RoundTrip,Interchange},
-- AvroValues/{Contents,Flushing,Pushing,Ends,Values,Sequences,RoundTrip} and
-- Python/{Calls,Writers,Planned}. Prelude holds what they share, Examples the tests and the theorems
-- at concrete inputs.
--
-- Bounds: a `usize` has 64 bits. The count of emitted rows wraps there and the count of bytes
-- saturates, as in the source; indices and lengths of lists are natural numbers. The loops over lists
-- are structural. `collect_batches` is on fuel, one unit for each call of `next`; one more than
-- the rows of the source is enough, also for `decode` and `decode_batches`, which pass theirs on. The
-- loop of `push` is on fuel, one unit for each round; two more than the bytes of the value are enough.
--
-- Not modelled: the laziness of the readers of the other crates and the moment at which they read; a
-- poisoned lock of the Parquet reader; the texts of errors and exceptions; the module that registers the
-- Python functions (rust/python/lib.rs), the re-exports (rust/src/lib.rs) and the Python package
-- (fsspec_data), which wraps this core and does input and output; memory ordering of the atomic flag,
-- whose stores and loads are single steps between calls.
mod Prelude
pub mod Errors
pub mod DataType
pub mod Arrow
pub mod Cast
pub mod Format
pub mod Policy
pub mod Fields
pub mod HashMap
pub mod Operations
pub mod Plan
pub mod Stream
pub mod Registry
pub mod Codec
pub mod Stateful
pub mod Reader
pub mod Decoding
pub mod Codecs
pub mod AvroValues
pub mod Python
mod Examples
