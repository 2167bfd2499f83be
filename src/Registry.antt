-- ===== src/Registry.antt =====
-- rust/src/codec.rs: the registry of codecs; rust/src/plan.rs: the request and its entry point `plan`.
pub mod Lookup
use fsspec_data.Prelude.{Bool, true, false, Option, none, some, List, [], ◌∷◌, if◌then◌else◌}
use fsspec_data.Errors.{Externals, Result, ok, err, ◌>>=◌, codec_not_registered}
use fsspec_data.Arrow.{Arrow}
use fsspec_data.Format
use fsspec_data.Format.{DataFormat, arrow, parquet, csv, json_lines, avro}
use fsspec_data.Policy.{SchemaPolicy}
use fsspec_data.Operations.{ProjectionOptions}
use fsspec_data.Plan.{InterchangePlan, plan_schema_with}

-- the derived `==` of `DataFormat`
abbrev pub format_eq : DataFormat → DataFormat → Bool
format_eq arrow arrow = true
format_eq parquet parquet = true
format_eq csv csv = true
format_eq json_lines json_lines = true
format_eq avro avro = true
format_eq _ _ = false

-- `CodecRegistry`: the map from formats to codecs, as the list of its entries.
abbrev pub CodecRegistry : Type 0 → Type 0
CodecRegistry Codec = List (DataFormat × Codec)

module _ {Codec : Type 0} where
  abbrev pub find : DataFormat → CodecRegistry Codec → Option Codec
  find format [] = none
  find format ((key, codec) ∷ codecs) =
      if format_eq key format then some codec else find format codecs

  -- `codecs.insert(format, codec)`: the codec of a format that is there is replaced.
  unfoldable pub insert : DataFormat → Codec → CodecRegistry Codec → CodecRegistry Codec
  insert format codec [] = (format, codec) ∷ []
  insert format codec ((key, old) ∷ codecs) =
      let rest = insert format codec codecs in
      if format_eq key format then (key, codec) ∷ codecs else (key, old) ∷ rest

  -- `CodecRegistry::register`; the first argument is the codec's `format`.
  unfoldable pub register : (Codec → DataFormat) → Codec → CodecRegistry Codec → CodecRegistry Codec
  unfolding insert
  register format codec codecs = insert (format codec) codec codecs

  -- `CodecRegistry::get`
  unfoldable pub lookup : {X : Externals} → DataFormat → CodecRegistry Codec → Result X Codec
  lookup format codecs = elim (find format codecs) [
    | some codec ↦ ok codec
    | none ↦ err (codec_not_registered (Format.as_str format))
  ]

-- The codecs of the crate.
pub data BuiltIn : Type 0 where
  arrow_ipc_codec parquet_codec csv_codec json_lines_codec avro_codec : BuiltIn

-- their `Codec::format`
unfoldable pub format_of : BuiltIn → DataFormat
format_of arrow_ipc_codec = arrow
format_of parquet_codec = parquet
format_of csv_codec = csv
format_of json_lines_codec = json_lines
format_of avro_codec = avro

-- `DEFAULT_REGISTRY`
unfoldable pub default_registry : CodecRegistry BuiltIn
unfolding register format_of
default_registry = register format_of avro_codec (
    register format_of json_lines_codec (
      register format_of csv_codec
        (register format_of parquet_codec (register format_of arrow_ipc_codec []))))

module _ (A : Arrow) where
  pub record InterchangeRequest : Type 0 where
    pub provided_format : DataFormat
    pub requested_format : DataFormat
    pub provided_schema : A.Schema
    pub requested_schema : A.Schema
    pub policy : SchemaPolicy
    pub options : ProjectionOptions A

  -- `plan`
  unfoldable pub plan : InterchangeRequest → Result A.external (InterchangePlan A)
  plan request = do
    provided_codec ← lookup request.provided_format default_registry
    requested_codec ← lookup request.requested_format default_registry
    planned ←
        plan_schema_with A request.provided_schema request.requested_schema request.policy
          request.options
    ok (record planned {
      provided_format = request.provided_format;
      requested_format = request.requested_format;
    })
