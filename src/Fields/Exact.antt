-- ===== src/Fields/Exact.antt =====
-- The exact policy accepts equal descriptors and nothing else.
use fsspec_data.Prelude.{
  ℕ, suc, ◌≡◌, ◌↔◌, refl, true, false, none, List, [], ◌∷◌, zip, length, enumerate_from, arith,
  eq_iff, ◌==◌, Bool-cases, inl, inr,
}
use fsspec_data.Errors.{Result, ok, collect, collect-cons-ok, collect-ok-cons}
use fsspec_data.DataType.{type_eq_iff}
use fsspec_data.Arrow.{Arrow}
use fsspec_data.Fields.{FieldDescriptor, FieldMapping, Descriptor, exact_field, plan_exact}

abbrev pub in_place_at : ℕ → FieldMapping
in_place_at n = record { source_index = n; target_index = n; cast = none; check_nulls = false }

-- The mappings that carry every field over as it is.
abbrev pub in_place : {O : Type 0} → ℕ → List (FieldDescriptor O) → List FieldMapping
in_place n [] = []
in_place n (f ∷ fs) = in_place_at n ∷ in_place (suc n) fs

module _ (A : Arrow) where
  exact_field-ok :
      (n : ℕ) (s t : Descriptor A) (m : FieldMapping)
      → exact_field A n s t ≡ ok m
      → (s ≡ t) × (m ≡ in_place_at n)
  unfolding exact_field
  exact_field-ok n s t m h =
      ground (arith, eq_iff s.name t.name, type_eq_iff A.other_discrete s.data_type t.data_type)

  exact_field_self : (n : ℕ) (s : Descriptor A) → exact_field A n s s ≡ ok (in_place_at n)
  unfolding exact_field
  exact_field_self n s =
      ground (arith, eq_iff s.name s.name, type_eq_iff A.other_discrete s.data_type s.data_type)

  abbrev pairs_from :
      (ℕ → Descriptor A → Descriptor A → Result A.external FieldMapping)
      → ℕ
      → List (Descriptor A)
      → List (Descriptor A)
      → Result A.external (List FieldMapping)
  pairs_from f n p r = collect (λ e. f e.0 e.1.0 e.1.1) (enumerate_from n (zip p r))

  exact_pairs-ok :
      (n : ℕ) (p r : List (Descriptor A)) (ms : List FieldMapping)
      → length p ≡ length r
      → pairs_from (exact_field A) n p r ≡ ok ms
      → (p ≡ r) × (ms ≡ in_place n p)
  unfolding collect
  exact_pairs-ok n [] [] ms l h = (refl, cc)
  exact_pairs-ok n [] (t ∷ r) ms l h = absurd (omega arith)
  exact_pairs-ok n (s ∷ p) [] ms l h = absurd (omega arith)
  exact_pairs-ok n (s ∷ p) (t ∷ r) ms l h =
      let (m, rest, x, y, e) = collect-cons-ok _ (n, (s, t)) (enumerate_from (suc n) (zip p r)) h in
      let (same, at) = exact_field-ok n s t m x in
      let (sames, ats) = exact_pairs-ok (suc n) p r rest (omega arith) y in
      (cc (same, sames), cc (e, at, ats))

  exact_pairs_self :
      (n : ℕ) (p : List (Descriptor A)) → pairs_from (exact_field A) n p p ≡ ok (in_place n p)
  unfolding collect
  exact_pairs_self n [] = refl
  exact_pairs_self n (s ∷ p) =
      collect-ok-cons _ (n, (s, s)) (enumerate_from (suc n) (zip p p)) (exact_field_self n s)
        (exact_pairs_self (suc n) p)

  pub plan_exact_self : (p : List (Descriptor A)) → plan_exact A p p ≡ ok (in_place 0 p)
  unfolding plan_exact
  plan_exact_self p =
      let e : (length p == length p) ≡ true = ground arith in rw e (exact_pairs_self 0 p)

  -- The exact policy accepts a requested schema just where its descriptors are the provided ones,
  -- and then it carries every field over in place, without a cast and without a null check.
  pub plan_exact_iff :
      (p r : List (Descriptor A)) (ms : List FieldMapping)
      → (plan_exact A p r ≡ ok ms) ↔ ((p ≡ r) × (ms ≡ in_place 0 p))
  unfolding plan_exact
  plan_exact_iff p r ms = (to, λ h. rw (← h.0, h.1) (plan_exact_self p))
    where
      to : plan_exact A p r ≡ ok ms → (p ≡ r) × (ms ≡ in_place 0 p)
      to h = elim (Bool-cases (length p == length r)) [
        | inl e ↦ exact_pairs-ok 0 p r ms (ground arith) (rw e at h)
        | inr e ↦ cc (rw e at h)
      ]
