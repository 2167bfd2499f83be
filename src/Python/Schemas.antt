-- ===== src/Python/Schemas.antt =====
-- rust/python/lib.rs: `plan_schema`.
use mathlib.Core.Option
use fsspec_data.Prelude.{ℕ, String, Bool, Option, none, some, List, [], map}
use fsspec_data.Errors.{Result, ok, ◌>>=◌, collect}
use fsspec_data.Arrow.{Arrow}
use fsspec_data.Cast
use fsspec_data.Cast.{CastKind}
use fsspec_data.Policy
use fsspec_data.HashMap.{HashMap}
use fsspec_data.Fields.{FieldMapping}
use fsspec_data.Operations.{ProjectionOptions, FieldAddition}
use fsspec_data.Plan.{plan_schema_with}
use fsspec_data.Python.{PyResult, to_python}

module _ (A : Arrow) where
  abbrev pub mapping_tuple : FieldMapping → ℕ × ℕ × Option String × Bool
  mapping_tuple mapping = (
    mapping.source_index,
    mapping.target_index,
    Option.map Cast.as_str mapping.cast,
    mapping.check_nulls,
  )

  abbrev pub addition_tuple : FieldAddition A → ℕ × A.Array
  addition_tuple addition = (addition.target_index, addition.value)

  abbrev pub or_default {ℓ} : {B : Type ℓ} → Option (List B) → List B
  or_default none = []
  or_default (some bs) = bs

  abbrev pub parse_cast : String × String → Result A.external (String × CastKind)
  parse_cast entry = do kind ← Cast.parse entry.1; ok (entry.0, kind)

  -- `plan_schema`. `collected` is the order in which a map iterates over the entries collected into it.
  unfoldable pub plan_schema :
      ((V : Type 0) → HashMap V → HashMap V)
      → A.Schema
      → A.Schema
      → String
      → Option (HashMap String)
      → Option (HashMap A.Array)
      → Option (List String)
      → Option (HashMap String)
      → PyResult A.external (List (ℕ × ℕ × Option String × Bool) × List (ℕ × A.Array))
  plan_schema collected provided requested policy renames defaults drop casts = to_python (do
    parsed ← Policy.parse policy
    kinds ← collect parse_cast (or_default casts)
    let options : ProjectionOptions A = record {
      renames = or_default renames;
      defaults = collected A.Array (or_default defaults);
      drop = or_default drop;
      casts = collected CastKind kinds;
    }
    plan ← plan_schema_with A provided requested parsed options
    ok (map mapping_tuple plan.mappings, map addition_tuple plan.additions))
