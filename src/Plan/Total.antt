-- ===== src/Plan/Total.antt =====
-- Planning never panics.
mod Fields
mod Checks
mod Operations
use fsspec_data.Prelude.{
  All-mono, ℕ, String, str_eq, find_by, filter_by, ◌++◌, zero, suc, ◌<◌, ◌≡◌, ◌≢◌, ◌∙◌, Bool,
  Bool-cases, inl, inr, Option-cases, true, false, not, ltb, Option, none, some, List, [], ◌∷◌,
  length, set, length-set, length-replicate, get_elem?, get_elem?-lt, lt-get_elem?, position_from,
  enumerate_from, zip, arith, All, All-get_elem?, if◌then◌else◌,
}
use fsspec_data.Errors.{Result, ok, panic, ◌>>=◌}
use fsspec_data.Arrow.{Arrow}
use fsspec_data.Cast.{CastKind}
use fsspec_data.Stateful.{Outcome-cases}
use fsspec_data.Policy.{SchemaPolicy, exact, projection, compatible, coerce}
use fsspec_data.HashMap.{get, contains_key, keys, values}
use fsspec_data.Fields.{
  Descriptor, FieldMapping, classified, validate_field, validate_nullability, exact_field,
  plan_pairs, plan_exact, positional_field, plan_positional, compatible_field, coerce_field,
  sole_match, projection_field, plan_projection, plan_field_descriptors,
}
use fsspec_data.Operations.{
  FieldAddition, or_else, policy_limit, occurs_once, is_requested, ProjectionOptions, no_operations,
  is_projection, check_cast, plan_mapping, cast_default, plan_addition, check_provided,
  check_conflicts, check_requested, source_names, matching, Progress, fill, fill_all, check_used,
  check_operations, start, plan_operations,
}
use fsspec_data.Operations.Sources.{IsSource, IsMatch, matching-IsMatch, source_names-IsSource}
use fsspec_data.Plan.{plan_fields, plan_schema_with, schema_descriptors}
use fsspec_data.Plan.Proper.{
  Always, Proper, Proper-bind, if-Proper, collect-Proper, Proper-not_panic, position_from-lt,
}
use fsspec_data.Plan.Total.Fields.{fields-Proper}
use fsspec_data.Plan.Total.Operations.{plan_operations-Proper}

module _ (A : Arrow) where
  plan_fields-Proper :
      (provided requested : List (Descriptor A)) (policy : SchemaPolicy)
      (options : ProjectionOptions A)
      → Proper Always (plan_fields A provided requested policy options)
  unfolding plan_fields
  plan_fields-Proper provided requested policy options =
      if-Proper Always (no_operations A options)
        (plan_field_descriptors A provided requested policy >>= λ mappings. ok (mappings, []))
        (plan_operations A provided requested policy options)
        (Proper-bind Always Always (plan_field_descriptors A provided requested policy)
          (λ mappings. ok (mappings, [])) (fields-Proper A provided requested policy)
          λ mappings _. tt)
        (plan_operations-Proper A provided policy options requested)

  -- Planning never panics, whatever the schemas, the policy and the options: every index that it takes is
  -- within its list.
  pub plan_schema_with-not_panic :
      (provided requested : A.Schema) (policy : SchemaPolicy) (options : ProjectionOptions A)
      → plan_schema_with A provided requested policy options ≢ panic
  unfolding plan_schema_with
  plan_schema_with-not_panic provided requested policy options =
      Proper-not_panic Always (plan_schema_with A provided requested policy options) (
        Proper-bind Always Always
          (plan_fields A (schema_descriptors A provided) (schema_descriptors A requested) policy
            options)
          _
          (plan_fields-Proper (schema_descriptors A provided) (schema_descriptors A requested)
            policy options)
          λ planned _. tt)
