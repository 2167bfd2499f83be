-- ===== src/Arrow.antt =====
-- What the source takes from the arrow crate: its types, as parameters, and its operations. The laws
-- of the operations that the source relies on are in the child module.
pub mod Laws
use fsspec_data.Prelude.{ℕ, String, Bool, List}
use fsspec_data.Errors.{Externals}
use fsspec_data.DataType.{DataType}

-- arrow's `Result`: the error type is the caller's.
pub data Outcome (E A : Type 0) : Type 0 where
  done : A → Outcome E A
  failed : E → Outcome E A

pub record Arrow : Type 1 where
  pub external : Externals
  -- the variants of `DataType` that the source does not name, and their equality
  pub Other : Type 0
  pub other_discrete : Discrete Other
  -- `format!("{:?}", data_type)`
  pub debug : DataType Other → String
  pub Field : Type 0
  pub name : Field → String
  pub field_type : Field → DataType Other
  pub is_nullable : Field → Bool
  pub Schema : Type 0
  pub fields : Schema → List Field
  -- the derived `==` of `Schema`, metadata included
  pub schema_eq : Schema → Schema → Bool
  pub Array : Type 0
  pub array_type : Array → DataType Other
  pub len : Array → ℕ
  pub is_null : Array → ℕ → Bool
  pub null_count : Array → ℕ
  pub new_null_array : DataType Other → ℕ → Array
  -- the first argument is `CastOptions::safe`
  pub cast_with_options : Bool → Array → DataType Other → Outcome external.ArrowError Array
  pub take : Array → List ℕ → Outcome external.ArrowError Array
  pub RecordBatch : Type 0
  pub schema : RecordBatch → Schema
  pub columns : RecordBatch → List Array
  pub num_rows : RecordBatch → ℕ
  pub slice : RecordBatch → ℕ → ℕ → RecordBatch
  pub memory_size : RecordBatch → ℕ
  -- the last argument is the row count of `RecordBatchOptions`
  pub try_new_with_options : Schema → List Array → ℕ → Outcome external.ArrowError RecordBatch
