-- ===== src/Plan/Loops.antt =====
-- The two loops of `apply_batch`.
use fsspec_data.Prelude.{
  Any, ℕ, ◌<◌, ◌≡◌, refl, ap, ◌∙◌, true, false, ◌&&◌, ltb, Option, none, some, List, [], ◌∷◌,
  length, set, replicate, get_elem?, arith, if◌then◌else◌, Bool-cases, inl, inr, length-set, All,
}
use fsspec_data.Errors.{InterchangeError, Result, ok, err, ◌>>=◌, or_panic, runtime_nullability}
use fsspec_data.Arrow.{Arrow, done}
use fsspec_data.Cast.{CastKind}
use fsspec_data.Fields.{FieldMapping}
use fsspec_data.Operations.{FieldAddition}
use fsspec_data.Plan.{
  InterchangePlan, Columns, lift, apply_mapping, apply_mappings, apply_addition, apply_additions,
}
use fsspec_data.Plan.Writing.{write}
use fsspec_data.Plan.Columns.{MappedAll, AddedAll, mapped_writes, added_writes}
use fsspec_data.Plan.Settles.{
  IsFailure, Settles, Settles-bind, Settles-mono, Settles-errors, Settles-or_panic, Settles-set,
  Settles-lift,
}

module _ (A : Arrow) (plan : InterchangePlan A) (batch : A.RecordBatch) where
  abbrev pub targets : List A.Field
  targets = A.fields plan.requested_schema

  -- The column that a mapping makes of its source.
  pub record MappedColumn (m : FieldMapping) (c : A.Array) : Type 0 where
    pub source : A.Array
    pub at_source : get_elem? (A.columns batch) m.source_index ≡ some source
    pub checked : m.check_nulls ≡ true → A.null_count source ≡ 0
    pub as_is : m.cast ≡ none → c ≡ source
    pub recast :
        (k : CastKind)
        → m.cast ≡ some k
        → (f : A.Field) × (get_elem? targets m.target_index ≡ some f)
          × (A.cast_with_options false source (A.field_type f) ≡ done c)

  -- The column that an addition makes of its value.
  abbrev pub TakenColumn : FieldAddition A → A.Array → Type 0
  TakenColumn a c = A.take a.value (replicate (A.num_rows batch) 0) ≡ done c

  -- The field that a mapping fills.
  abbrev pub IsTarget : FieldMapping → A.Field → Type 0
  IsTarget m f = get_elem? targets m.target_index ≡ some f

  -- What can go wrong with a mapping: its source has nulls, which it is to check, and the error has the
  -- name of the field; or the cast that it is to do fails.
  pub data MapFault (m : FieldMapping) (e : InterchangeError A.external) : Type 0 where
    nulls_found :
        (source : A.Array) (f : A.Field)
        → get_elem? (A.columns batch) m.source_index ≡ some source
        → IsTarget m f
        → m.check_nulls ≡ true
        → 0 < A.null_count source
        → e ≡ runtime_nullability (A.name f)
        → MapFault m e
    cast_failed :
        (source : A.Array) (f : A.Field) (k : CastKind)
        → get_elem? (A.columns batch) m.source_index ≡ some source
        → IsTarget m f
        → m.cast ≡ some k
        → IsFailure (A.cast_with_options false source (A.field_type f)) e
        → MapFault m e

  -- What can go wrong with an addition.
  abbrev pub TakeFault : FieldAddition A → InterchangeError A.external → Type 0
  TakeFault a e = IsFailure (A.take a.value (replicate (A.num_rows batch) 0)) e

  -- What can go wrong with the batch of the columns.
  abbrev pub BuildFault : InterchangeError A.external → Type 0
  BuildFault e =
      (columns : List A.Array) × IsFailure
        (A.try_new_with_options plan.requested_schema columns (A.num_rows batch)) e

  -- The indices of a mapping are in range.
  pub record InRange (width : ℕ) (m : FieldMapping) : Type 0 where
    pub source : A.Array
    pub at_source : get_elem? (A.columns batch) m.source_index ≡ some source
    pub field : A.Field
    pub at_target : get_elem? targets m.target_index ≡ some field
    pub within : m.target_index < width

  Checked : FieldMapping → A.Array → Unit {0} → Type 0
  Checked m source u = m.check_nulls ≡ true → A.null_count source ≡ 0

  check-Settles :
      (m : FieldMapping) (source : A.Array) (field : A.Field)
      → get_elem? (A.columns batch) m.source_index ≡ some source
      → IsTarget m field
      → Settles (MapFault m) (Checked m source) (
          if m.check_nulls && ltb 0 (A.null_count source)
          then (or_panic (get_elem? targets m.target_index) >>= λ f.
              err (runtime_nullability (A.name f)))
          else ok tt)
  unfolding Checked
  check-Settles m source field from at =
      elim (Bool-cases (m.check_nulls && ltb 0 (A.null_count source))) [
        | inl e ↦ rw (e, at) (nulls_found source field from at (ground arith) (ground arith) refl)
        | inr e ↦ rw e (λ c. ground arith)
      ]

  Column : FieldMapping → A.Array → A.Array → Type 0
  Column m source c =
      (m.cast ≡ none → c ≡ source)
      × ((k : CastKind)
          → m.cast ≡ some k
          → (f : A.Field) × (get_elem? targets m.target_index ≡ some f)
            × (A.cast_with_options false source (A.field_type f) ≡ done c))

  abbrev column : FieldMapping → A.Array → Option CastKind → Result A.external A.Array
  column m source cast = elim cast [
    | some kind ↦ or_panic (get_elem? targets m.target_index) >>= λ field.
        lift A (A.cast_with_options false source (A.field_type field))
    | none ↦ ok source
  ]

  column-Settles :
      (m : FieldMapping) (source : A.Array) (field : A.Field) (cast : Option CastKind)
      → get_elem? (A.columns batch) m.source_index ≡ some source
      → IsTarget m field
      → m.cast ≡ cast
      → Settles (MapFault m) (Column m source) (column m source cast)
  unfolding Column
  column-Settles m source field none from at e = (λ n. refl, λ k p. cc (e, p))
  column-Settles m source field (some k) from at e =
      Settles-bind (MapFault m) (IsTarget m) (Column m source) _ _
        (Settles-or_panic (MapFault m) _ at)
        λ f p.
          Settles-mono (MapFault m) _ (Column m source) _
            (Settles-errors (IsFailure (A.cast_with_options false source (A.field_type f)))
              (MapFault m) (λ c. A.cast_with_options false source (A.field_type f) ≡ done c)
              (lift A (A.cast_with_options false source (A.field_type f)))
              (Settles-lift A (A.cast_with_options false source (A.field_type f)))
              (λ x failure. cast_failed source f k from p e failure))
            λ c q. (λ n. cc (e, n), λ k' _. (f, p, q))

  Written : Columns A → FieldMapping → Columns A → Type 0
  Written columns m columns' =
      (c : A.Array) × MappedColumn m c × (columns' ≡ set columns m.target_index (some c))

  mapping-Settles :
      (columns : Columns A) (m : FieldMapping)
      → InRange (length columns) m
      → Settles (MapFault m) (Written columns m) (apply_mapping A plan batch columns m)
  unfolding apply_mapping Column Checked Written
  mapping-Settles columns m r =
      Settles-bind (MapFault m) (λ s. get_elem? (A.columns batch) m.source_index ≡ some s)
        (Written columns m) _ _ (Settles-or_panic (MapFault m) _ r.at_source)
        λ source p.
          Settles-bind (MapFault m) (Checked m source) (Written columns m) _ _
            (check-Settles m source r.field p r.at_target)
            λ u checked.
              Settles-bind (MapFault m) (Column m source) (Written columns m)
                (column m source m.cast) _
                (column-Settles m source r.field m.cast p r.at_target refl)
                λ c q.
                  Settles-mono (MapFault m) _ (Written columns m) _
                    (Settles-set (MapFault m) columns m.target_index (some c) r.within)
                    λ columns' e. (
                      c,
                      record {
                        source = source;
                        at_source = p;
                        checked = checked;
                        as_is = q.0;
                        recast = q.1;
                      },
                      e,
                    )

  abbrev pub MapsTo : Columns A → List FieldMapping → Columns A → Type 0
  MapsTo columns ms columns' =
      (cs : List A.Array) × MappedAll A MappedColumn ms cs
      × (columns' ≡ write columns (mapped_writes A ms cs))

  abbrev pub MapFaults : List FieldMapping → InterchangeError A.external → Type 0
  MapFaults ms e = Any (λ m. MapFault m e) ms

  -- The loop over the mappings.
  pub mappings-Settles :
      (columns : Columns A) (ms : List FieldMapping) (width : ℕ)
      → length columns ≡ width
      → All (InRange width) ms
      → Settles (MapFaults ms) (MapsTo columns ms) (apply_mappings A plan batch columns ms)
  unfolding apply_mappings Written
  mappings-Settles columns [] width w h = ([], tt, refl)
  mappings-Settles columns (m ∷ ms) width w h =
      Settles-bind (MapFaults (m ∷ ms)) (Written columns m) (MapsTo columns (m ∷ ms)) _ _
        (Settles-errors (MapFault m) (MapFaults (m ∷ ms)) (Written columns m) _
          (mapping-Settles columns m (rw w h.0)) (λ e fault. inl fault))
        λ columns1 first.
          Settles-mono (MapFaults (m ∷ ms)) (MapsTo columns1 ms) (MapsTo columns (m ∷ ms)) _
            (Settles-errors (MapFaults ms) (MapFaults (m ∷ ms)) (MapsTo columns1 ms) _
              (mappings-Settles columns1 ms width (ap length first.2 ∙ length-set columns _ _ ∙ w)
                h.1)
              (λ e fault. inr fault))
            λ columns' rest. (
              first.0 ∷ rest.0,
              (first.1, rest.1),
              rest.2 ∙ ap (λ l. write l (mapped_writes A ms rest.0)) first.2,
            )

  abbrev pub TakesTo : Columns A → List (FieldAddition A) → Columns A → Type 0
  TakesTo columns bs columns' =
      (cs : List A.Array) × AddedAll A TakenColumn bs cs
      × (columns' ≡ write columns (added_writes A bs cs))

  Taken : Columns A → FieldAddition A → Columns A → Type 0
  Taken columns b columns' =
      (c : A.Array) × TakenColumn b c × (columns' ≡ set columns b.target_index (some c))

  addition-Settles :
      (columns : Columns A) (b : FieldAddition A)
      → b.target_index < length columns
      → Settles (TakeFault b) (Taken columns b) (apply_addition A plan batch columns b)
  unfolding apply_addition Taken
  addition-Settles columns b r =
      Settles-bind (TakeFault b) (TakenColumn b) (Taken columns b) _ _
        (Settles-lift A (A.take b.value (replicate (A.num_rows batch) 0)))
        λ c taken.
          Settles-mono (TakeFault b) _ (Taken columns b) _
            (Settles-set (TakeFault b) columns b.target_index (some c) r)
            λ columns' e. (c, taken, e)

  abbrev pub TakeFaults : List (FieldAddition A) → InterchangeError A.external → Type 0
  TakeFaults bs e = Any (λ b. TakeFault b e) bs

  -- The loop over the additions.
  pub additions-Settles :
      (columns : Columns A) (bs : List (FieldAddition A)) (width : ℕ)
      → length columns ≡ width
      → All (λ b. b.target_index < width) bs
      → Settles (TakeFaults bs) (TakesTo columns bs) (apply_additions A plan batch columns bs)
  unfolding apply_additions Taken
  additions-Settles columns [] width w h = ([], tt, refl)
  additions-Settles columns (b ∷ bs) width w h =
      Settles-bind (TakeFaults (b ∷ bs)) (Taken columns b) (TakesTo columns (b ∷ bs)) _ _
        (Settles-errors (TakeFault b) (TakeFaults (b ∷ bs)) (Taken columns b) _
          (addition-Settles columns b (rw w h.0)) (λ e fault. inl fault))
        λ columns1 first.
          Settles-mono (TakeFaults (b ∷ bs)) (TakesTo columns1 bs) (TakesTo columns (b ∷ bs)) _
            (Settles-errors (TakeFaults bs) (TakeFaults (b ∷ bs)) (TakesTo columns1 bs) _
              (additions-Settles columns1 bs width (ap length first.2 ∙ length-set columns _ _ ∙ w)
                h.1)
              (λ e fault. inr fault))
            λ columns' rest. (
              first.0 ∷ rest.0,
              (first.1, rest.1),
              rest.2 ∙ ap (λ l. write l (added_writes A bs rest.0)) first.2,
            )
