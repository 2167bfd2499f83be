-- ===== src/Plan/Reshaping.antt =====
-- What every plan makes of the batches that it is applied to, however it was made.
use fsspec_data.Prelude.{◌≡◌, ap, sym, if◌then◌else◌}
use fsspec_data.Errors.{ok, bind_ok, ok-injective, guard-ok, or_panic, collect, input_schema}
use fsspec_data.Arrow.{Arrow, Outcome, done, failed}
use fsspec_data.Arrow.Laws.{ArrowLaws}
use fsspec_data.Operations.{is_empty}
use fsspec_data.Plan.{
  InterchangePlan, plan_schema_with, plan_fields, schema_descriptors, schema_fields_equal,
  apply_mappings, apply_additions, apply_batch, lift,
}

module _ (A : Arrow) where
  lift-done :
      {B : Type 0} (r : Outcome A.external.ArrowError B) {b : B} → lift A r ≡ ok b → r ≡ done b
  lift-done (done b) h = cc
  lift-done (failed e) h = cc

  -- A plan that is made is for the schemas that it was asked for.
  pub plan_schema_with-requested :
      (provided requested : A.Schema) (policy : _) (options : _) (plan : InterchangePlan A)
      → plan_schema_with A provided requested policy options ≡ ok plan
      → plan.requested_schema ≡ requested
  unfolding plan_schema_with
  plan_schema_with-requested provided requested policy options plan h =
      let (planned, p, q) =
        bind_ok
          (plan_fields A (schema_descriptors A provided) (schema_descriptors A requested) policy
            options)
          _ h in
      ap (λ (plan : InterchangePlan A). plan.requested_schema) (sym (ok-injective _ plan q))

  module _ (plan : InterchangePlan A) where
    -- The batch has the requested schema, and as many rows as the one that it was made of.
    pub record Reshapes (batch out : A.RecordBatch) : Type 0 where
      pub of_schema : A.schema out ≡ plan.requested_schema
      pub of_rows : A.num_rows out ≡ A.num_rows batch

    module _ (laws : ArrowLaws A) where
      pub apply_batch-Reshapes :
          (batch out : A.RecordBatch) → apply_batch A plan batch ≡ ok out → Reshapes batch out
      unfolding apply_batch
      apply_batch-Reshapes batch out h =
          let (p, h0) =
            guard-ok (schema_fields_equal A (A.schema batch) plan.provided_schema) input_schema _
              h in
          let (mapped, q, h1) = bind_ok (apply_mappings A plan batch _ plan.mappings) _ h0 in
          let (filled, r, h2) =
            bind_ok
              (if is_empty plan.additions
                then ok mapped
                else apply_additions A plan batch mapped plan.additions)
              _ h1 in
          let (columns, c, h3) = bind_ok (collect or_panic filled) _ h2 in
          let (schema, held, rows, fits) =
            laws.try_new_holds plan.requested_schema columns (A.num_rows batch) out
              (lift-done _ h3) in
          record { of_schema = schema; of_rows = rows }
