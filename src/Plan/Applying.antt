-- ===== src/Plan/Applying.antt =====
-- What `apply_batch` comes to, for every plan that was made and every batch that it accepts.
use fsspec_data.Prelude.{
  ◌⊎◌, inl, inr, ℕ, suc, ◌+◌, ◌<◌, ◌≡◌, refl, sym, ap, ◌∙◌, subst, true, none, some, List, [], ◌∷◌,
  map, length, replicate, get_elem?-lt, lt-get_elem?, length-replicate, length-map, arith, All,
  if◌then◌else◌,
}
use fsspec_data.Errors.{InterchangeError, ok, ◌>>=◌, collect, or_panic}
use fsspec_data.Arrow.{Arrow, done}
use fsspec_data.Arrow.Laws.{ArrowLaws, IsBatch, FitsFields-length}
use fsspec_data.Fields.{FieldMapping, Descriptor}
use fsspec_data.Operations.{FieldAddition, ProjectionOptions, is_empty}
use fsspec_data.Operations.Fills.{Fills, filled, mapped, added}
use fsspec_data.Plan.{
  InterchangePlan, schema_descriptors, schema_fields_equal, descriptors_eq, apply_batch,
  apply_mappings, apply_additions, lift, Columns,
}
use fsspec_data.Plan.Filling.{IsPlan}
use fsspec_data.Plan.Columns.{ColumnsFor, columns_written, mapped_writes, added_writes}
use fsspec_data.Plan.Writing.{write, length-write}
use fsspec_data.Plan.Settles.{
  IsFailure, Settles, Settles-bind, Settles-mono, Settles-errors, Settles-lift, collect-or_panic,
}
use fsspec_data.Plan.Loops.{
  MappedColumn, TakenColumn, InRange, MapFaults, TakeFaults, BuildFault, mappings-Settles,
  additions-Settles, MapsTo, TakesTo,
}

module _ (A : Arrow) where
  length-descriptors : (s : A.Schema) → length (schema_descriptors A s) ≡ length (A.fields s)
  unfolding schema_descriptors
  length-descriptors s = length-map (A.fields s) _

  descriptors_eq-length :
      (as' bs : List (Descriptor A)) → descriptors_eq A as' bs ≡ true → length as' ≡ length bs
  unfolding descriptors_eq
  descriptors_eq-length [] [] h = refl
  descriptors_eq-length [] (b ∷ bs) h = cc
  descriptors_eq-length (a ∷ as') [] h = cc
  descriptors_eq-length (a ∷ as') (b ∷ bs) h = ap suc (descriptors_eq-length as' bs (ground arith))

  module _ (options : ProjectionOptions A) (plan : InterchangePlan A) (batch : A.RecordBatch) where
    abbrev provided : List (Descriptor A)
    provided = schema_descriptors A plan.provided_schema

    abbrev width : ℕ
    width = length (A.fields plan.requested_schema)

    abbrev Ranges : List FieldMapping → List (FieldAddition A) → Type 0
    Ranges ms bs = All (InRange A plan batch width) ms × All (λ b. b.target_index < width) bs

    Fills-Ranges :
        (n : ℕ) (r : List (Descriptor A)) {ms : List FieldMapping} {bs : List (FieldAddition A)}
        → length (A.columns batch) ≡ length provided
        → n + length r ≡ width
        → Fills A provided plan.policy options n r ms bs
        → Ranges ms bs
    Fills-Ranges n r c w filled = (tt, tt)
    Fills-Ranges n _ c w (mapped {r = r} {m = m} p f) =
        let (ms, bs) = Fills-Ranges (suc n) r c (omega arith) f in
        let (source, at_source) =
          get_elem?-lt (A.columns batch) m.source_index
            (omega (arith, lt-get_elem? provided m.source_index p.at_source)) in
        let (field, at_target) =
          get_elem?-lt (A.fields plan.requested_schema) m.target_index
            (omega (arith, p.at_target)) in
        (
          (
            record {
              source = source;
              at_source = at_source;
              field = field;
              at_target = at_target;
              within = omega (arith, p.at_target);
            },
            ms,
          ),
          bs,
        )
    Fills-Ranges n _ c w (added {r = r} p f) =
        let (ms, bs) = Fills-Ranges (suc n) r c (omega arith) f in
        (ms, (omega (arith, p.at_target), bs))

    -- What a batch that comes out holds.
    pub record Applied (out : A.RecordBatch) : Type 0 where
      pub of_schema : A.schema out ≡ plan.requested_schema
      pub as_many_rows : A.num_rows out ≡ A.num_rows batch
      pub columns_for :
          ColumnsFor A provided plan.policy options
            (MappedColumn A plan batch)
            (TakenColumn A plan batch)
            0
            (schema_descriptors A plan.requested_schema)
            (A.columns out)
      pub is_batch : IsBatch A out

    columns_match :
        IsBatch A batch
        → schema_fields_equal A (A.schema batch) plan.provided_schema ≡ true
        → length (A.columns batch) ≡ length provided
    unfolding schema_fields_equal
    columns_match b h =
        FitsFields-length A _ _ (A.columns batch) b.fits
        ∙ sym (length-descriptors (A.schema batch))
        ∙ descriptors_eq-length _ _ h

    -- The errors that the plan and the batch can lead to.
    abbrev pub IsFault : InterchangeError A.external → Type 0
    IsFault e =
        MapFaults A plan batch plan.mappings e
        ⊎ (TakeFaults A plan batch plan.additions e ⊎ BuildFault A plan batch e)

    additions_or_skip :
        (columns : Columns A)
        → length columns ≡ width
        → All (λ b. b.target_index < width) plan.additions
        → Settles IsFault (TakesTo A plan batch columns plan.additions) (
            if is_empty plan.additions
            then ok columns
            else apply_additions A plan batch columns plan.additions)
    additions_or_skip columns w h =
        subst (Settles IsFault (TakesTo A plan batch columns plan.additions)) (skip plan.additions)
          (Settles-errors (TakeFaults A plan batch plan.additions) IsFault
            (TakesTo A plan batch columns plan.additions)
            (apply_additions A plan batch columns plan.additions)
            (additions-Settles A plan batch columns plan.additions width w h)
            (λ e fault. inr (inl fault)))
      where
        skip :
            (bs : List (FieldAddition A))
            → apply_additions A plan batch columns bs
              ≡ (if is_empty bs then ok columns else apply_additions A plan batch columns bs)
        skip [] = unfold apply_additions in refl
        skip (b ∷ bs) = refl

    abbrev blank : Columns A
    blank = replicate width none

    built :
        ArrowLaws A
        → IsPlan A options plan
        → (cols1 cols2 : Columns A) → MapsTo A plan batch blank plan.mappings cols1
        → TakesTo A plan batch cols1 plan.additions cols2
        → Settles IsFault Applied (
            collect or_panic cols2 >>= λ columns.
            lift A (A.try_new_with_options plan.requested_schema columns (A.num_rows batch)))
    built laws p cols1 cols2 (cs, hm, e) (ds, ha, e') =
        let (columns, fits, eq) =
          columns_written A provided plan.policy options (MappedColumn A plan batch)
            (TakenColumn A plan batch) 0 _ cs ds [] refl p hm ha in
        let same : cols2 ≡ map some columns =
          e'
          ∙ ap (λ l. write l (added_writes A plan.additions ds))
              (e
                ∙ ap (λ n. write (replicate n none) (mapped_writes A plan.mappings cs))
                    (sym (length-descriptors plan.requested_schema)))
          ∙ eq in
        rw (same, collect-or_panic columns)
          (Settles-mono IsFault _ Applied _
            (Settles-errors
              (IsFailure (A.try_new_with_options plan.requested_schema columns (A.num_rows batch)))
              IsFault
              (λ b.
                A.try_new_with_options plan.requested_schema columns (A.num_rows batch) ≡ done b)
              (lift A (A.try_new_with_options plan.requested_schema columns (A.num_rows batch)))
              (Settles-lift A
                (A.try_new_with_options plan.requested_schema columns (A.num_rows batch)))
              (λ e fault. inr (inr (columns, fault))))
            λ out made.
              let (s, c, n, f) = laws.try_new_holds _ _ _ out made in
              record {
                of_schema = s;
                as_many_rows = n;
                columns_for = rw c fits;
                is_batch = record { fits = rw (s, c, n) f };
              })

    -- A batch with the provided fields is never met by a panic. What comes out has the requested
    -- schema, as many rows, and in each column what the plan says; the only errors are nulls found in
    -- the source of a mapping that the plan has check them, with the name of the field it fills, and
    -- errors of arrow from the cast of a mapping, the take of an addition or the building of the batch.
    pub apply_batch-Settles :
        ArrowLaws A
        → IsPlan A options plan
        → IsBatch A batch
        → schema_fields_equal A (A.schema batch) plan.provided_schema ≡ true
        → Settles IsFault Applied (apply_batch A plan batch)
    unfolding apply_batch
    apply_batch-Settles laws p b accepted =
        let (ms, bs) =
          Fills-Ranges 0 (schema_descriptors A plan.requested_schema) (columns_match b accepted)
            (omega (arith, length-descriptors plan.requested_schema)) p in
        rw accepted (
          Settles-bind IsFault (MapsTo A plan batch blank plan.mappings) Applied _ _
            (Settles-errors (MapFaults A plan batch plan.mappings) IsFault
              (MapsTo A plan batch blank plan.mappings)
              (apply_mappings A plan batch blank plan.mappings)
              (mappings-Settles A plan batch blank plan.mappings width (length-replicate width none)
                ms)
              (λ e fault. inl fault))
            λ cols1 m.
              Settles-bind IsFault (TakesTo A plan batch cols1 plan.additions) Applied _ _
                (additions_or_skip cols1
                  (ap length m.2
                    ∙ length-write blank (mapped_writes A plan.mappings m.0)
                    ∙ length-replicate width none)
                  bs)
                λ cols2 f. built laws p cols1 cols2 m f)
