-- ===== src/Examples/Bindings.antt =====
-- The functions that Python calls, over the small format.
use fsspec_data.Prelude.{
  ℕ, String, ◌≡◌, ◌≤◌, ◌↔◌, refl, ltb, if◌then◌else◌, false, Option, none, some, List, [], ◌∷◌, map,
  All, arith,
}
use fsspec_data.Errors.{ok, collect}
use fsspec_data.Arrow.{done, failed}
use fsspec_data.Cast
use fsspec_data.Cast.{CastKind, classify, classify_distinct, rank}
use fsspec_data.Policy
use fsspec_data.Policy.{SchemaPolicy}
use fsspec_data.HashMap.{HashMap, get}
use fsspec_data.Format
use fsspec_data.DataType.{float64, type_eq}
use fsspec_data.Operations.{
  plan_operations, check_operations, fill_all, fill, source_names, matching, check_used,
  plan_mapping, check_cast, plan_addition,
}
use fsspec_data.Plan.{InterchangePlan, plan_schema_with, schema_descriptors}
use fsspec_data.Registry.{csv_codec, lookup, default_registry}
use fsspec_data.Stream.{default_options}
use fsspec_data.Stream.Collecting.{FitsOptions, batch_rows}
use fsspec_data.Reader.{Bytes}
use fsspec_data.Python.Objects.{PySource, python_read}
use fsspec_data.Python.Schemas.{plan_schema}
use fsspec_data.Python.{
  returned, raised, to_python, codec_writer_is_finished, encode_batches, decode_batches,
  native_finish, NativeCodecWriter,
}
use fsspec_data.Python.Calls.{python_read_iff, decode_batches-encode_batches}
use fsspec_data.Python.Writers.{outcomes, write, close, outcomes-native_finish}
use fsspec_data.Python.Planned.{mapping_of, plan_schema-tuples}
use fsspec_data.Examples.Toy.{externals, toy}
use fsspec_data.Examples.Plans.{people, scores, score_options}
use fsspec_data.Examples.Decodings.{two_tables, encoded}
use fsspec_data.Examples.Tables.{
  Table, tables, tables-RowLaws, tables-ArrowLaws, cursors, encoders, formats, csv-ReadsBack,
}

-- An object whose `read` returns one byte more than it is asked for when it is asked for more than two.
abbrev source : PySource externals
source = record {
  State = Unit;
  Object = Option Bytes;
  Exception = ℕ;
  call_read = λ n s. (done (some (if ltb 2 n then (1 ∷ 2 ∷ 3 ∷ 4 ∷ []) else (7 ∷ []))), s);
  call_seek = λ n whence s. (failed 1, s);
  Mismatch = ℕ;
  as_bytes = λ o. elim o [ none ↦ failed 2 | some bytes ↦ done bytes ];
  as_u64 = λ o. failed 3;
  python_io_error = λ e. e;
  invalid_data = λ e. e;
  too_many_bytes = 4;
}

too_many : python_read source 3 tt ≡ (failed 4, tt)
unfolding python_read
too_many = refl

python_read_iff_example : (python_read source 2 tt ≡ (done (7 ∷ []), tt)) ↔ (
    (object : Option Bytes) × (source.call_read 2 tt ≡ (done object, tt))
    × (source.as_bytes object ≡ done (7 ∷ []))
    × (1 ≤ 2))
python_read_iff_example = python_read_iff source 2 tt tt (7 ∷ [])

abbrev started : NativeCodecWriter tables encoders csv_codec
started = record { writer = some (record { schema = 4; writer = [] }) }

outcomes-native_finish_example :
    outcomes tables encoders csv_codec
      (write (4, 1 ∷ []) ∷ close ∷ [])
      (native_finish tables encoders csv_codec started).1
    ≡ raised codec_writer_is_finished ∷ returned tt ∷ []
outcomes-native_finish_example =
    outcomes-native_finish tables encoders csv_codec started (write (4, 1 ∷ []) ∷ close ∷ [])

encoded_csv : encode_batches tables encoders "csv" 4 two_tables ≡ returned (10 ∷ 11 ∷ 12 ∷ [])
unfolding encode_batches to_python Format.parse lookup default_registry
encoded_csv = rw (encode_batches, encoded) refl

as_str_csv : Format.as_str Format.csv ≡ "csv"
unfolding Format.as_str
as_str_csv = refl

decode_batches-encode_batches_example :
    (batches : List Table) × (decode_batches tables cursors formats 4 []
        (Format.as_str Format.csv)
        (10 ∷ 11 ∷ 12 ∷ [])
        (some 4)
      ≡ some (returned (4, batches)))
    × All (FitsOptions tables tables-RowLaws default_options) batches
    × (batch_rows tables tables-RowLaws batches ≡ 10 ∷ 11 ∷ 12 ∷ [])
decode_batches-encode_batches_example =
    decode_batches-encode_batches tables encoders cursors formats tables-RowLaws tables-ArrowLaws
      Format.csv 4 (csv-ReadsBack 4) two_tables (10 ∷ 11 ∷ 12 ∷ []) [] 4 (refl, (refl, tt))
      (omega arith, (omega arith, (omega arith, tt))) (rw as_str_csv encoded_csv) (omega arith)

abbrev renames : HashMap String
renames = ("id", "customer") ∷ []

abbrev lossy_customer : HashMap String
lossy_customer = ("customer", "lossy") ∷ []

planned :
    plan_schema toy
      (λ V entries. entries)
      people
      scores
      "compatible"
      (some renames)
      (some score_options.defaults)
      (some ("name" ∷ []))
      (some lossy_customer)
    ≡ returned
        ((0, 1, some "safe", false) ∷ [], (0, record { type = float64; cells = some 7 ∷ [] }) ∷ [])
unfolding plan_schema to_python Policy.parse Cast.parse Cast.as_str plan_schema_with plan_operations
    check_operations fill_all fill source_names matching check_used plan_mapping check_cast
    plan_addition get classify classify_distinct schema_descriptors type_eq rank collect
planned = refl

plan_schema-tuples_example :
    (parsed : SchemaPolicy) × (kinds : HashMap CastKind) × (plan : InterchangePlan toy)
    × ("compatible" ≡ Policy.as_str parsed)
    × (lossy_customer ≡ map (λ entry. (entry.0, Cast.as_str entry.1)) kinds)
    × (plan_schema_with toy people scores parsed (record {
      renames = renames;
      defaults = score_options.defaults;
      drop = "name" ∷ [];
      casts = kinds;
    })
        ≡ ok plan)
    × (collect (mapping_of toy) ((0, 1, some "safe", false) ∷ []) ≡ ok plan.mappings)
    × (record { target_index = 0; value = record { type = float64; cells = some 7 ∷ [] } } ∷ []
        ≡ plan.additions)
plan_schema-tuples_example =
    plan_schema-tuples toy (λ V entries. entries) people scores "compatible" (some renames)
      (some score_options.defaults) (some ("name" ∷ [])) (some lossy_customer)
      ((0, 1, some "safe", false) ∷ []) ((0, record { type = float64; cells = some 7 ∷ [] }) ∷ [])
      planned
