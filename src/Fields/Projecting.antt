-- ===== src/Fields/Projecting.antt =====
-- The projection policy takes each requested field from the one provided field of its name.
use fsspec_data.Prelude.{
  ℕ, suc, ◌≡◌, ◌↔◌, refl, true, false, none, List, [], ◌∷◌, enumerate_from, filter_by, str_eq,
  arith, eq_iff, Sole, filter-Sole, Sole-filter, enumerate-Sole, Sole-enumerate, All,
}
use fsspec_data.Errors.{Externals, Result, ok, bind_ok, collect, collect-cons-ok, collect-ok-cons}
use fsspec_data.DataType.{type_eq_iff}
use fsspec_data.Arrow.{Arrow}
use fsspec_data.Fields.{
  FieldMapping, Descriptor, sole_match, validate_field, projection_field, plan_projection,
}

-- The call returns a value.
abbrev pub Succeeds {ℓ} : {X : Externals} {B : Type ℓ} → Result X B → Type ℓ
Succeeds r = (b : _) × (r ≡ ok b)

module _ (A : Arrow) where
  -- A field that takes no nulls is not given a field that may have some.
  abbrev pub Holds : Descriptor A → Descriptor A → Type 0
  Holds s t = s.nullable ≡ true → t.nullable ≡ true

  abbrev pub Projects : List (Descriptor A) → Descriptor A → Type 0
  Projects provided t =
      (s : Descriptor A) × Sole (λ u. u.name ≡ t.name) s provided
      × (s.data_type ≡ t.data_type)
      × Holds s t

  abbrev of_name : Descriptor A → List (ℕ × Descriptor A) → List (ℕ × Descriptor A)
  of_name t es = filter_by (λ e. str_eq e.1.name t.name) es

  sole_match-ok :
      (t : Descriptor A) (es : List (ℕ × Descriptor A)) (e : ℕ × Descriptor A)
      → sole_match A t es ≡ ok e
      → es ≡ e ∷ []
  unfolding sole_match
  sole_match-ok t [] e h = cc
  sole_match-ok t (e' ∷ []) e h = cc
  sole_match-ok t (e' ∷ d ∷ es) e h = cc

  validate_field_iff :
      (s t : Descriptor A)
      → (validate_field A s t ≡ ok tt) ↔ ((s.data_type ≡ t.data_type) × Holds s t)
  unfolding validate_field
  validate_field_iff s t = (
    λ h. ground (arith, type_eq_iff A.other_discrete s.data_type t.data_type),
    λ h. ground (arith, type_eq_iff A.other_discrete s.data_type t.data_type),
  )

  projection_field-Projects :
      (p : List (Descriptor A)) (n : ℕ) (t : Descriptor A) (m : FieldMapping)
      → projection_field A p n t ≡ ok m
      → Projects p t
  unfolding projection_field
  projection_field-Projects p n t m h =
      let (e, q, h1) = bind_ok (sole_match A t (of_name t (enumerate_from 0 p))) _ h in
      let (u, v, _) = bind_ok (validate_field A e.1 t) _ h1 in
      let (type, holds) = (validate_field_iff e.1 t).0 v in
      (
        e.1,
        enumerate-Sole (λ u. u.name ≡ t.name) 0 p e
            (filter-Sole (λ e. str_eq e.1.name t.name) _ (λ e. eq_iff e.1.name t.name)
              (enumerate_from 0 p) e (sole_match-ok t _ e q)),
        type,
        holds,
      )

  Projects-Succeeds :
      (p : List (Descriptor A)) (n : ℕ) (t : Descriptor A)
      → Projects p t
      → Succeeds (projection_field A p n t)
  unfolding projection_field sole_match
  Projects-Succeeds p n t (s, sole, type, holds) =
      let (i, numbered) = Sole-enumerate (λ u. u.name ≡ t.name) 0 p s sole in
      let e =
        Sole-filter (λ e. str_eq e.1.name t.name) _ (λ e. eq_iff e.1.name t.name)
          (enumerate_from 0 p) (i, s) numbered in
      (
        record { source_index = i; target_index = n; cast = none; check_nulls = false },
        rw (e, (validate_field_iff s t).1 (type, holds)) refl,
      )

  projections-All :
      (p : List (Descriptor A)) (n : ℕ) (r : List (Descriptor A)) (ms : List FieldMapping)
      → collect (λ e. projection_field A p e.0 e.1) (enumerate_from n r) ≡ ok ms
      → All (Projects p) r
  projections-All p n [] ms h = tt
  projections-All p n (t ∷ r) ms h =
      let (m, rest, x, y, e) = collect-cons-ok _ (n, t) (enumerate_from (suc n) r) h in
      (projection_field-Projects p n t m x, projections-All p (suc n) r rest y)

  All-projections :
      (p : List (Descriptor A)) (n : ℕ) (r : List (Descriptor A))
      → All (Projects p) r
      → Succeeds (collect (λ e. projection_field A p e.0 e.1) (enumerate_from n r))
  unfolding collect
  All-projections p n [] h = ([], refl)
  All-projections p n (t ∷ r) h =
      let (m, x) = Projects-Succeeds p n t h.0 in
      let (ms, y) = All-projections p (suc n) r h.1 in
      (m ∷ ms, collect-ok-cons _ (n, t) (enumerate_from (suc n) r) x y)

  pub plan_projection_iff :
      (p r : List (Descriptor A)) → Succeeds (plan_projection A p r) ↔ All (Projects p) r
  unfolding plan_projection
  plan_projection_iff p r = (λ h. projections-All p 0 r h.0 h.1, All-projections p 0 r)
