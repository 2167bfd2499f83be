-- ===== src/Plan/Filling.antt =====
-- Every successful plan fills each requested field once.
use mathlib.Core.Path.{subst₂}
use fsspec_data.Prelude.{
  ℕ, suc, ◌+◌, ◌≡◌, refl, sym, ap, subst, ◌∙◌, inl, inr, true, false, some, List, [], ◌∷◌, zip,
  length, get_elem?, filter_by, enumerate_from, arith, eq_iff, str_eq, ◌==◌, Bool-cases, All,
  Selected, All-filter-enumerate,
}
use fsspec_data.Errors.{Result, ok, collect, collect-cons-ok, bind_ok, ok-injective, guard-ok}
use fsspec_data.DataType.{type_eq_iff}
use fsspec_data.Cast.{classify}
use fsspec_data.Cast.Order.{classify_self}
use fsspec_data.Arrow.{Arrow}
use fsspec_data.HashMap.{get}
use fsspec_data.Policy.{SchemaPolicy, exact, projection, compatible, coerce}
use fsspec_data.Fields.{
  FieldMapping, Descriptor, narrows, exact_field, positional_field, compatible_field, coerce_field,
  projection_field, sole_match, validate_field, plan_field_descriptors,
}
use fsspec_data.Operations.{no_options, no_operations, ProjectionOptions, FieldAddition}
use fsspec_data.Operations.Planning.{plan_operations-Fills}
use fsspec_data.Plan.{InterchangePlan, schema_descriptors, plan_fields, plan_schema_with}
use fsspec_data.Operations.Fills.{IsMapping, Fills, filled, mapped}

module _ (A : Arrow) (provided : List (Descriptor A)) (policy : SchemaPolicy) where
  abbrev Maps : ℕ → Descriptor A → FieldMapping → Type 0
  Maps = IsMapping A provided policy (no_options A)

  abbrev Covers : ℕ → List (Descriptor A) → List FieldMapping → Type 0
  Covers n r ms = Fills A provided policy (no_options A) n r ms []

  pairs-Covers :
      (f : ℕ → Descriptor A → Descriptor A → Result A.external FieldMapping)
      → ((n : ℕ) (s t : Descriptor A) (m : FieldMapping)
          → get_elem? provided n ≡ some s
          → f n s t ≡ ok m
          → Maps n t m)
      → (n : ℕ) (p r : List (Descriptor A)) (ms : List FieldMapping) → length p ≡ length r
      → ((k : ℕ) (s : Descriptor A) → get_elem? p k ≡ some s → get_elem? provided (n + k) ≡ some s)
      → collect (λ e. f e.0 e.1.0 e.1.1) (enumerate_from n (zip p r)) ≡ ok ms
      → Covers n r ms
  unfolding collect
  pairs-Covers f sound n [] [] ms l at h = rw (← ok-injective [] ms h) filled
  pairs-Covers f sound n [] (t ∷ r) ms l at h = absurd (omega arith)
  pairs-Covers f sound n (s ∷ p) [] ms l at h = absurd (omega arith)
  pairs-Covers f sound n (s ∷ p) (t ∷ r) ms l at h =
      let (m, rest, x, y, e) =
        collect-cons-ok (λ e. f e.0 e.1.0 e.1.1) (n, (s, t)) (enumerate_from (suc n) (zip p r)) h in
      subst (Covers n (t ∷ r)) e (
        mapped (sound n s t m (ap (get_elem? provided) (omega arith) ∙ at 0 s refl) x) (
          pairs-Covers f sound (suc n) p r rest (omega arith)
            (λ k s' g. ap (get_elem? provided) (omega arith) ∙ at (suc k) s' g) y))

  targets-Covers :
      (f : ℕ → Descriptor A → Result A.external FieldMapping)
      → ((n : ℕ) (t : Descriptor A) (m : FieldMapping) → f n t ≡ ok m → Maps n t m)
      → (n : ℕ) (r : List (Descriptor A)) (ms : List FieldMapping)
      → collect (λ e. f e.0 e.1) (enumerate_from n r) ≡ ok ms
      → Covers n r ms
  unfolding collect
  targets-Covers f sound n [] ms h = rw (← ok-injective [] ms h) filled
  targets-Covers f sound n (t ∷ r) ms h =
      let (m, rest, x, y, e) =
        collect-cons-ok (λ e. f e.0 e.1) (n, t) (enumerate_from (suc n) r) h in
      subst (Covers n (t ∷ r)) e (mapped (sound n t m x) (targets-Covers f sound (suc n) r rest y))

module _ (A : Arrow) (provided : List (Descriptor A)) where
  exact-Maps :
      (n : ℕ) (s t : Descriptor A) (m : FieldMapping)
      → get_elem? provided n ≡ some s
      → exact_field A n s t ≡ ok m
      → IsMapping A provided exact (no_options A) n t m
  unfolding exact_field get classify
  exact-Maps n s t m at h = record {
    source = s;
    at_source = ground arith;
    at_target = ground arith;
    named = ground (arith, eq_iff s.name t.name);
    kept = refl;
    cast_eq = ground arith;
    uncast = λ e. ground (arith, type_eq_iff A.other_discrete s.data_type t.data_type);
    nulls = ground arith;
    narrowing = λ e. ground arith;
  }

  compatible-Maps :
      (n : ℕ) (s t : Descriptor A) (m : FieldMapping)
      → get_elem? provided n ≡ some s
      → positional_field A (compatible_field A) n s t ≡ ok m
      → IsMapping A provided compatible (no_options A) n t m
  unfolding positional_field compatible_field get
  compatible-Maps n s t m at h = record {
    source = s;
    at_source = ground arith;
    at_target = ground arith;
    named = ground (arith, eq_iff s.name t.name);
    kept = refl;
    cast_eq = ground arith;
    uncast = λ e. ground (arith, type_eq_iff A.other_discrete s.data_type t.data_type);
    nulls = ground arith;
    narrowing = λ e. ground arith;
  }

  coerce-Maps :
      (n : ℕ) (s t : Descriptor A) (m : FieldMapping)
      → get_elem? provided n ≡ some s
      → positional_field A (coerce_field A) n s t ≡ ok m
      → IsMapping A provided coerce (no_options A) n t m
  unfolding positional_field coerce_field get
  coerce-Maps n s t m at h = record {
    source = s;
    at_source = ground arith;
    at_target = ground arith;
    named = ground (arith, eq_iff s.name t.name);
    kept = refl;
    cast_eq = ground arith;
    uncast = λ e. ground (arith, type_eq_iff A.other_discrete s.data_type t.data_type);
    nulls = ground arith;
    narrowing = λ e. cc;
  }

  abbrev candidates : Descriptor A → List (ℕ × Descriptor A)
  candidates t = filter_by (λ e. str_eq e.1.name t.name) (enumerate_from 0 provided)

  abbrev Candidate : Descriptor A → ℕ × Descriptor A → Type 0
  Candidate t = Selected (λ e. str_eq e.1.name t.name) 0 provided

  sole_match-Candidate :
      (t : Descriptor A) (found : List (ℕ × Descriptor A)) (entry : ℕ × Descriptor A)
      → All (Candidate t) found
      → sole_match A t found ≡ ok entry
      → Candidate t entry
  unfolding sole_match
  sole_match-Candidate t [] entry h e = cc
  sole_match-Candidate t (c ∷ []) entry h e = subst (Candidate t) (ok-injective c entry e) h.0
  sole_match-Candidate t (c ∷ c' ∷ rest) entry h e = cc

  validate_field-ok :
      (s t : Descriptor A) {u : Unit {0}}
      → validate_field A s t ≡ ok u
      → (s.data_type ≡ t.data_type) × (narrows s t ≡ false)
  unfolding validate_field
  validate_field-ok s t h =
      (ground (arith, type_eq_iff A.other_discrete s.data_type t.data_type), ground arith)

  projection-Maps :
      (n : ℕ) (t : Descriptor A) (m : FieldMapping)
      → projection_field A provided n t ≡ ok m
      → IsMapping A provided projection (no_options A) n t m
  unfolding projection_field get
  projection-Maps n t m h =
      let (entry, found, h1) = bind_ok (sole_match A t (candidates t)) _ h in
      let (u, valid, made) = bind_ok (validate_field A entry.1 t) _ h1 in
      let c =
        sole_match-Candidate t (candidates t) entry (All-filter-enumerate _ 0 provided) found in
      let (same, wide) = validate_field-ok entry.1 t valid in
      let e = ok-injective _ m made in
      record {
        source = entry.1;
        at_source =
            ap (λ (m : FieldMapping). get_elem? provided m.source_index) (sym e)
            ∙ ap (get_elem? provided) (omega (arith, c.counts))
            ∙ c.stands;
        at_target = ap (λ (m : FieldMapping). m.target_index) (sym e);
        named = (eq_iff entry.1.name t.name).0 c.kept;
        kept = refl;
        cast_eq =
            ap (λ (m : FieldMapping). m.cast) (sym e)
            ∙ sym (rw same (classify_self A.other_discrete t.data_type));
        uncast = λ _. same;
        nulls = ap (λ (m : FieldMapping). m.check_nulls) (sym e) ∙ sym wide;
        narrowing = λ _. ap (λ (m : FieldMapping). m.check_nulls) (sym e);
      }

  -- Without options every policy fills each requested field once, and no field from a default.
  pub plan_field_descriptors-Fills :
      (r : List (Descriptor A)) (policy : SchemaPolicy) (ms : List FieldMapping)
      → plan_field_descriptors A provided r policy ≡ ok ms
      → Fills A provided policy (no_options A) 0 r ms []
  unfolding plan_field_descriptors
  plan_field_descriptors-Fills r exact ms h =
      let (l, h') = guard-ok (length provided == length r) _ _ h in
      pairs-Covers A provided exact (exact_field A) exact-Maps 0 provided r ms (ground arith)
        (λ k s e. ap (get_elem? provided) (omega arith) ∙ e) h'
  plan_field_descriptors-Fills r projection ms h =
      targets-Covers A provided projection (projection_field A provided) projection-Maps 0 r ms h
  plan_field_descriptors-Fills r compatible ms h =
      let (l, h') = guard-ok (length provided == length r) _ _ h in
      pairs-Covers A provided compatible (positional_field A (compatible_field A)) compatible-Maps 0
        provided r ms (ground arith) (λ k s e. ap (get_elem? provided) (omega arith) ∙ e) h'
  plan_field_descriptors-Fills r coerce ms h =
      let (l, h') = guard-ok (length provided == length r) _ _ h in
      pairs-Covers A provided coerce (positional_field A (coerce_field A)) coerce-Maps 0 provided r
        ms (ground arith) (λ k s e. ap (get_elem? provided) (omega arith) ∙ e) h'

module _ (A : Arrow) where
  -- The plan fills each field of its requested schema once, from its provided schema or a default.
  abbrev pub IsPlan : ProjectionOptions A → InterchangePlan A → Type 0
  IsPlan options plan =
      Fills A (schema_descriptors A plan.provided_schema) plan.policy options 0
        (schema_descriptors A plan.requested_schema) plan.mappings plan.additions

  no_operations-eq : (o : ProjectionOptions A) → no_operations A o ≡ true → o ≡ no_options A
  no_operations-eq o h = ground arith

  plan_fields-Fills :
      (p r : List (Descriptor A)) (policy : SchemaPolicy) (o : ProjectionOptions A)
      (ms : List FieldMapping) (bs : List (FieldAddition A))
      → plan_fields A p r policy o ≡ ok (ms, bs)
      → Fills A p policy o 0 r ms bs
  unfolding plan_fields
  plan_fields-Fills p r policy o ms bs h = elim (Bool-cases (no_operations A o)) [
    | inl e ↦
        let (ms', planned, made) = bind_ok (plan_field_descriptors A p r policy) _ (rw e at h) in
        let e' = ok-injective _ (ms, bs) made in
        subst₂ (Fills A p policy o 0 r) (ap (λ t. t.0) e') (ap (λ t. t.1) e')
          (rw (no_operations-eq o e) (plan_field_descriptors-Fills A p r policy ms' planned))
    | inr e ↦ plan_operations-Fills A p policy o r ms bs (rw e at h)
  ]

  -- A plan is for the schemas and the policy that were asked for, and it fills each requested field
  -- exactly once, in the order of the fields: by a mapping from a provided field that was not dropped
  -- and has the requested name after the renames, with the registered cast if the types differ and
  -- with a null check just where nulls would be lost, which only the coerce policy allows; or by an
  -- addition made of the default for that name.
  pub plan_schema_with-IsPlan :
      (provided requested : A.Schema) (policy : SchemaPolicy) (options : ProjectionOptions A)
      (plan : InterchangePlan A)
      → plan_schema_with A provided requested policy options ≡ ok plan
      → (plan.provided_schema ≡ provided)
        × (plan.requested_schema ≡ requested)
        × (plan.policy ≡ policy)
        × IsPlan options plan
  unfolding plan_schema_with
  plan_schema_with-IsPlan provided requested policy options plan h =
      let (t, planned, made) =
        bind_ok
          (plan_fields A (schema_descriptors A provided) (schema_descriptors A requested) policy
            options)
          _ h in
      let e = ok-injective _ plan made in
      (
        ap (λ (plan : InterchangePlan A). plan.provided_schema) (sym e),
        ap (λ (plan : InterchangePlan A). plan.requested_schema) (sym e),
        ap (λ (plan : InterchangePlan A). plan.policy) (sym e),
        subst (IsPlan options) e (plan_fields-Fills _ _ policy options t.0 t.1 planned),
      )
