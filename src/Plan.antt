-- ===== src/Plan.antt =====
-- rust/src/plan.rs: plans of schemas, and their application to record batches.
pub mod Filling
pub mod Writing
pub mod Columns
pub mod Settles
pub mod Loops
pub mod Applying
pub mod Proper
pub mod Total
pub mod Reshaping
use fsspec_data.Prelude.{
  ℕ, Bool, true, false, ◌&&◌, ltb, str_eq, Option, none, some, List, [], ◌∷◌, map, length,
  replicate, get_elem?, if◌then◌else◌,
}
use fsspec_data.Errors.{
  Result, ok, err, panic, ◌>>=◌, ◌>>◌, guard, or_panic, collect, arrow, input_schema,
  runtime_nullability,
}
use fsspec_data.DataType.{type_eq}
use fsspec_data.Arrow.{Arrow, Outcome, done, failed}
use fsspec_data.Format.{DataFormat}
use fsspec_data.Format
use fsspec_data.Policy.{SchemaPolicy}
use fsspec_data.Fields.{
  FieldDescriptor, FieldMapping, Descriptor, same_type, bool_eq, plan_field_descriptors,
}
use fsspec_data.Operations.{
  FieldAddition, ProjectionOptions, no_options, no_operations, is_empty, set_or_panic,
  plan_operations,
}

module _ (A : Arrow) where
  -- `InterchangePlan`
  pub record InterchangePlan : Type 0 where
    pub provided_format : DataFormat
    pub requested_format : DataFormat
    pub provided_schema : A.Schema
    pub requested_schema : A.Schema
    pub policy : SchemaPolicy
    pub mappings : List FieldMapping
    pub additions : List (FieldAddition A)

  abbrev pub descriptor : A.Field → Descriptor A
  descriptor field = record {
    name = A.name field;
    data_type = A.field_type field;
    nullable = A.is_nullable field;
  }

  -- `schema_descriptors`
  unfoldable pub schema_descriptors : A.Schema → List (Descriptor A)
  schema_descriptors schema = map descriptor (A.fields schema)

  abbrev descriptor_eq : Descriptor A → Descriptor A → Bool
  descriptor_eq a b = str_eq a.name b.name && same_type A a b && bool_eq a.nullable b.nullable

  -- the derived `==` of `Vec<FieldDescriptor>`
  unfoldable pub descriptors_eq : List (Descriptor A) → List (Descriptor A) → Bool
  descriptors_eq [] [] = true
  descriptors_eq [] (b ∷ bs) = false
  descriptors_eq (a ∷ as') [] = false
  descriptors_eq (a ∷ as') (b ∷ bs) = descriptor_eq a b && descriptors_eq as' bs

  -- `schema_fields_equal`
  unfoldable pub schema_fields_equal : A.Schema → A.Schema → Bool
  unfolding schema_descriptors descriptors_eq
  schema_fields_equal left right =
      descriptors_eq (schema_descriptors left) (schema_descriptors right)

  -- the `if options.is_empty()` of `plan_schema_with`
  unfoldable pub plan_fields :
      List (Descriptor A)
      → List (Descriptor A)
      → SchemaPolicy
      → ProjectionOptions A
      → Result A.external (List FieldMapping × List (FieldAddition A))
  plan_fields provided requested policy options =
      if no_operations A options
      then (do mappings ← plan_field_descriptors A provided requested policy; ok (mappings, []))
      else plan_operations A provided requested policy options

  -- `plan_schema_with`
  unfoldable pub plan_schema_with :
      A.Schema → A.Schema → SchemaPolicy → ProjectionOptions A → Result A.external InterchangePlan
  unfolding plan_fields
  plan_schema_with provided_schema requested_schema policy options = do
    let provided = schema_descriptors provided_schema
    let requested = schema_descriptors requested_schema
    planned ← plan_fields provided requested policy options
    ok (record {
      provided_format = Format.arrow;
      requested_format = Format.arrow;
      provided_schema = provided_schema;
      requested_schema = requested_schema;
      policy = policy;
      mappings = planned.0;
      additions = planned.1;
    })

  -- `plan_schema`
  unfoldable pub plan_schema :
      A.Schema → A.Schema → SchemaPolicy → Result A.external InterchangePlan
  unfolding plan_schema_with
  plan_schema provided_schema requested_schema policy =
      plan_schema_with provided_schema requested_schema policy (no_options A)

  -- `result?` on arrow's error
  abbrev pub lift : {B : Type 0} → Outcome A.external.ArrowError B → Result A.external B
  lift (done b) = ok b
  lift (failed e) = err (arrow e)

  abbrev pub Columns : Type 0
  Columns = List (Option A.Array)

  module _ (plan : InterchangePlan) (batch : A.RecordBatch) where
    -- the body of the loop over the mappings
    unfoldable pub apply_mapping : Columns → FieldMapping → Result A.external Columns
    apply_mapping columns mapping = do
      source ← or_panic (get_elem? (A.columns batch) mapping.source_index)
      if mapping.check_nulls && ltb 0 (A.null_count source)
          then (do
            field ← or_panic (get_elem? (A.fields plan.requested_schema) mapping.target_index)
            err (runtime_nullability (A.name field)))
          else ok tt
      column ← elim mapping.cast [
        | some kind ↦ do
          field ← or_panic (get_elem? (A.fields plan.requested_schema) mapping.target_index)
          lift (A.cast_with_options false source (A.field_type field))
        | none ↦ ok source
      ]
      set_or_panic columns mapping.target_index (some column)

    unfoldable pub apply_mappings : Columns → List FieldMapping → Result A.external Columns
    apply_mappings columns [] = ok columns
    apply_mappings columns (mapping ∷ rest) = do
      columns' ← apply_mapping columns mapping
      apply_mappings columns' rest

    -- the body of the loop over the additions
    unfoldable pub apply_addition : Columns → FieldAddition A → Result A.external Columns
    apply_addition columns addition = do
      column ← lift (A.take addition.value (replicate (A.num_rows batch) 0))
      set_or_panic columns addition.target_index (some column)

    unfoldable pub apply_additions : Columns → List (FieldAddition A) → Result A.external Columns
    apply_additions columns [] = ok columns
    apply_additions columns (addition ∷ rest) = do
      columns' ← apply_addition columns addition
      apply_additions columns' rest

    -- `InterchangePlan::apply_batch`
    unfoldable pub apply_batch : Result A.external A.RecordBatch
    apply_batch = do
      guard (schema_fields_equal (A.schema batch) plan.provided_schema) input_schema
      mapped ←
          apply_mappings (replicate (length (A.fields plan.requested_schema)) none) plan.mappings
      filled ← if is_empty plan.additions then ok mapped else apply_additions mapped plan.additions
      columns ← collect or_panic filled
      lift (A.try_new_with_options plan.requested_schema columns (A.num_rows batch))

  -- `InterchangePlan::apply_stream`, over the items of the iterator
  unfoldable pub apply_stream :
      InterchangePlan
      → List (Result A.external A.RecordBatch)
      → List (Result A.external A.RecordBatch)
  apply_stream plan batches = map (λ batch. batch >>= apply_batch plan) batches
