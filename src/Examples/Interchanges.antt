-- ===== src/Examples/Interchanges.antt =====
-- An interchange over the small format, and the theorems on it.
use fsspec_data.Prelude.{
  ◌≡◌, ◌<◌, subst, All, refl, false, none, some, List, [], ◌∷◌, map, length, arith,
}
use fsspec_data.Errors.{Result, ok, ok-injective, err, stream_cancelled, collect}
use fsspec_data.Format
use fsspec_data.Policy.{exact}
use fsspec_data.DataType.{type_eq}
use fsspec_data.Fields.{plan_field_descriptors}
use fsspec_data.Operations.{no_options}
use fsspec_data.Plan.{
  InterchangePlan, plan_schema_with, schema_descriptors, schema_fields_equal, apply_batch,
  apply_stream, apply_mappings, apply_mapping,
}
use fsspec_data.Stream.Collecting.{batch_rows}
use fsspec_data.Registry.{csv_codec, arrow_ipc_codec}
use fsspec_data.Codec.{
  csv_encode_stream, csv_start_writer, write_all, csv_write_batch, validate_batch, csv_finish,
}
use fsspec_data.Codecs.{decode, encode_stream}
use fsspec_data.Codecs.Whole.{Decodes}
use fsspec_data.Codecs.RoundTrip.{written_by}
use fsspec_data.Codecs.Interchange.{encode_stream-apply_stream, decode-apply_stream}
use fsspec_data.Examples.Toy.{externals}
use fsspec_data.Examples.Tables.{
  Table, tables, tables-RowLaws, tables-ArrowLaws, cursors, encoders, formats, csv-ReadsBack,
}
use fsspec_data.Examples.Decodings.{two_tables}

-- From the schema 4 to the schema 9, with the field as it is.
abbrev four_to_nine : InterchangePlan tables
four_to_nine = record {
  provided_format = Format.arrow;
  requested_format = Format.arrow;
  provided_schema = 4;
  requested_schema = 9;
  policy = exact;
  mappings = record { source_index = 0; target_index = 0; cast = none; check_nulls = false } ∷ [];
  additions = [];
}

planned : plan_schema_with tables 4 9 exact (no_options tables) ≡ ok four_to_nine
unfolding plan_schema_with schema_descriptors plan_field_descriptors type_eq collect
planned = refl

abbrev items : List (Result externals Table)
items = map ok two_tables

encoded :
    encode_stream tables encoders csv_codec 9 (apply_stream tables four_to_nine items)
    ≡ ok (10 ∷ 11 ∷ 12 ∷ [])
unfolding encode_stream csv_encode_stream csv_start_writer write_all csv_write_batch validate_batch
    csv_finish apply_stream apply_batch schema_fields_equal apply_mappings apply_mapping type_eq
    collect
encoded = refl

abbrev Bytewise : Table → Type 0
Bytewise b = All (λ row. row < 256) b.1

represented :
    All
      (λ item. (out : Table) → item ≡ ok out → Bytewise out)
      (apply_stream tables four_to_nine items)
unfolding apply_stream apply_batch schema_fields_equal apply_mappings apply_mapping type_eq collect
represented = (
  λ out e. subst Bytewise (ok-injective (9, 10 ∷ 11 ∷ []) out e) (omega arith, (omega arith, tt)),
  (λ out e. subst Bytewise (ok-injective (9, 12 ∷ []) out e) (omega arith, tt), tt),
)

abbrev failing : List (Result externals Table)
failing = ok (4, 10 ∷ []) ∷ ok (5, 11 ∷ []) ∷ err stream_cancelled ∷ []

encode_stream-apply_stream_example :
    encode_stream tables encoders arrow_ipc_codec 9 (apply_stream tables four_to_nine failing)
    ≡ written_by tables encoders arrow_ipc_codec 9 (apply_stream tables four_to_nine failing)
encode_stream-apply_stream_example =
    encode_stream-apply_stream tables encoders tables-ArrowLaws arrow_ipc_codec four_to_nine failing

decode-apply_stream_example :
    (batches outs : List Table) × (items ≡ map ok batches)
    × (collect (apply_batch tables four_to_nine) batches ≡ ok outs)
    × (length (batch_rows tables tables-RowLaws outs) ≡ 3)
    × Decodes tables cursors formats tables-RowLaws 9
        (batch_rows tables tables-RowLaws outs)
        (decode tables cursors formats 4 [] csv_codec (10 ∷ 11 ∷ 12 ∷ []) (some 9))
decode-apply_stream_example =
    decode-apply_stream tables encoders tables-ArrowLaws csv_codec cursors formats tables-RowLaws 4
      9 exact (no_options tables) four_to_nine (csv-ReadsBack 9) items (10 ∷ 11 ∷ 12 ∷ []) [] 4
      planned encoded represented (omega arith)
