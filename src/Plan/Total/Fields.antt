-- ===== src/Plan/Total/Fields.antt =====
-- The planners of the four policies do not panic.
use fsspec_data.Prelude.{
  ℕ, str_eq, Bool-cases, inl, inr, false, none, List, [], ◌∷◌, enumerate_from, zip, arith,
}
use fsspec_data.Errors.{Result, ok, ◌>>=◌}
use fsspec_data.Arrow.{Arrow}
use fsspec_data.Policy.{SchemaPolicy, exact, projection, compatible, coerce}
use fsspec_data.Fields.{
  Descriptor, FieldMapping, validate_field, validate_nullability, exact_field, plan_pairs,
  plan_exact, positional_field, plan_positional, compatible_field, coerce_field, sole_match,
  projection_field, plan_projection, plan_field_descriptors,
}
use fsspec_data.Plan.Proper.{Always, Proper, collect-Proper}

module _ (A : Arrow) where
  pairs-Proper :
      (f : ℕ → Descriptor A → Descriptor A → Result A.external FieldMapping)
      → ((i : ℕ) (s t : Descriptor A) → Proper Always (f i s t))
      → (provided requested : List (Descriptor A))
      → Proper Always (plan_pairs A f provided requested)
  unfolding plan_pairs
  pairs-Proper f h provided requested =
      collect-Proper (λ entry. f entry.0 entry.1.0 entry.1.1)
        (λ entry. h entry.0 entry.1.0 entry.1.1) (enumerate_from 0 (zip provided requested))

  exact-Proper : (i : ℕ) (s t : Descriptor A) → Proper Always (exact_field A i s t)
  unfolding exact_field validate_field
  exact-Proper i s t = ground arith

  positional-Proper :
      (f : ℕ → Descriptor A → Descriptor A → Result A.external FieldMapping)
      → ((i : ℕ) (s t : Descriptor A) → Proper Always (f i s t))
      → (i : ℕ) (s t : Descriptor A) → Proper Always (positional_field A f i s t)
  unfolding positional_field
  positional-Proper f h i s t = elim (Bool-cases (str_eq s.name t.name)) [
    | inl e ↦ rw (positional_field, e) (h i s t)
    | inr e ↦ rw (positional_field, e) tt
  ]

  compatible-Proper : (i : ℕ) (s t : Descriptor A) → Proper Always (compatible_field A i s t)
  unfolding compatible_field validate_nullability
  compatible-Proper i s t = ground arith

  coerce-Proper : (i : ℕ) (s t : Descriptor A) → Proper Always (coerce_field A i s t)
  unfolding coerce_field
  coerce-Proper i s t = ground arith

  matches-Proper :
      (index : ℕ) (target : Descriptor A) (entries : List (ℕ × Descriptor A))
      → Proper {B = FieldMapping} Always (
          sole_match A target entries >>= λ entry. validate_field A entry.1 target >>= λ u.
          ok (record {
            source_index = entry.0;
            target_index = index;
            cast = none;
            check_nulls = false;
          }))
  unfolding sole_match validate_field
  matches-Proper index target [] = tt
  matches-Proper index target (entry ∷ []) = ground arith
  matches-Proper index target (entry ∷ other ∷ rest) = tt

  projection-Proper :
      (provided : List (Descriptor A)) (index : ℕ) (target : Descriptor A)
      → Proper Always (projection_field A provided index target)
  unfolding projection_field
  projection-Proper provided index target = matches-Proper index target _

  pub fields-Proper :
      (provided requested : List (Descriptor A)) (policy : SchemaPolicy)
      → Proper Always (plan_field_descriptors A provided requested policy)
  unfolding plan_field_descriptors plan_exact plan_projection plan_positional
  fields-Proper provided requested exact =
      ground (arith, pairs-Proper (exact_field A) exact-Proper provided requested)
  fields-Proper provided requested projection =
      collect-Proper (λ entry. projection_field A provided entry.0 entry.1)
        (λ entry. projection-Proper provided entry.0 entry.1) (enumerate_from 0 requested)
  fields-Proper provided requested compatible = ground (
    arith,
    pairs-Proper (positional_field A (compatible_field A))
        (positional-Proper (compatible_field A) compatible-Proper) provided requested,
  )
  fields-Proper provided requested coerce = ground (
    arith,
    pairs-Proper (positional_field A (coerce_field A))
        (positional-Proper (coerce_field A) coerce-Proper) provided requested,
  )
