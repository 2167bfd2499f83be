-- ===== src/Format.antt =====
-- rust/src/plan.rs: `DataFormat` and its names.
use fsspec_data.Prelude.{String, ◌≡◌, ◌↔◌, refl, arith, str_eq, eq_iff, if◌then◌else◌}
use fsspec_data.Errors.{Externals, Result, ok, err, unknown_format}

pub data DataFormat : Type 0 where
  arrow parquet csv json_lines avro : DataFormat

-- `DataFormat::as_str`
unfoldable pub as_str : DataFormat → String
as_str arrow = "arrow"
as_str parquet = "parquet"
as_str csv = "csv"
as_str json_lines = "jsonl"
as_str avro = "avro"

-- `DataFormat::parse`
unfoldable pub parse : {X : Externals} → String → Result X DataFormat
parse value =
    if str_eq value "arrow"
    then ok arrow
    else if str_eq value "parquet"
    then ok parquet
    else if str_eq value "csv"
    then ok csv
    else if str_eq value "jsonl"
    then ok json_lines
    else if str_eq value "avro"
    then ok avro
    else err (unknown_format value)

pub DataFormat-discrete : Discrete DataFormat
DataFormat-discrete = hlevel

pub parse-as_str : {X : Externals} (f : DataFormat) → parse {X = X} (as_str f) ≡ ok f
unfolding parse as_str
parse-as_str arrow = refl
parse-as_str _ = refl

as_str-parse :
    {X : Externals} (value : String) (f : DataFormat)
    → parse {X = X} value ≡ ok f
    → value ≡ as_str f
unfolding parse as_str
as_str-parse value f h = ground (
  arith,
  eq_iff value "arrow",
  eq_iff value "parquet",
  eq_iff value "csv",
  eq_iff value "jsonl",
  eq_iff value "avro",
)

-- `parse` accepts exactly the names that `as_str` gives, each as the format that it names.
pub format_parse_iff :
    {X : Externals} (value : String) (f : DataFormat)
    → (parse {X = X} value ≡ ok f) ↔ (value ≡ as_str f)
format_parse_iff value f = (as_str-parse value f, λ e. rw e (parse-as_str f))
