-- ===== src/Fields/Nesting.antt =====
-- The policies that keep the field order form a chain: each accepts what the one before accepts, with
-- the same mappings.
use fsspec_data.Prelude.{
  ℕ, ◌≡◌, List, zip, length, enumerate_from, arith, ◌==◌, Bool-cases, inl, inr,
}
use fsspec_data.Errors.{ok, collect_mono}
use fsspec_data.Cast.{classify}
use fsspec_data.Arrow.{Arrow}
use fsspec_data.Policy.{exact, compatible, coerce}
use fsspec_data.Fields.{
  FieldMapping, Descriptor, exact_field, positional_field, compatible_field, coerce_field,
  plan_field_descriptors,
}

module _ (A : Arrow) where
  exact-compatible_field :
      (n : ℕ) (s t : Descriptor A) (m : FieldMapping)
      → exact_field A n s t ≡ ok m
      → positional_field A (compatible_field A) n s t ≡ ok m
  unfolding exact_field positional_field compatible_field classify
  exact-compatible_field n s t m h = ground arith

  compatible-coerce_field :
      (n : ℕ) (s t : Descriptor A) (m : FieldMapping)
      → positional_field A (compatible_field A) n s t ≡ ok m
      → positional_field A (coerce_field A) n s t ≡ ok m
  unfolding positional_field compatible_field coerce_field
  compatible-coerce_field n s t m h = ground arith

  -- What the exact policy accepts, the compatible policy plans in the same way.
  pub exact-compatible :
      (p r : List (Descriptor A)) {ms : List FieldMapping}
      → plan_field_descriptors A p r exact ≡ ok ms
      → plan_field_descriptors A p r compatible ≡ ok ms
  unfolding plan_field_descriptors
  exact-compatible p r h = elim (Bool-cases (length p == length r)) [
    | inl e ↦ rw e (
        collect_mono _ _ (λ x m. exact-compatible_field x.0 x.1.0 x.1.1 m)
          (enumerate_from 0 (zip p r)) (rw e at h))
    | inr e ↦ cc (rw e at h)
  ]

  -- What the compatible policy accepts, the coerce policy plans in the same way.
  pub compatible-coerce :
      (p r : List (Descriptor A)) {ms : List FieldMapping}
      → plan_field_descriptors A p r compatible ≡ ok ms
      → plan_field_descriptors A p r coerce ≡ ok ms
  unfolding plan_field_descriptors
  compatible-coerce p r h = elim (Bool-cases (length p == length r)) [
    | inl e ↦ rw e (
        collect_mono _ _ (λ x m. compatible-coerce_field x.0 x.1.0 x.1.1 m)
          (enumerate_from 0 (zip p r)) (rw e at h))
    | inr e ↦ cc (rw e at h)
  ]
