-- ===== src/Fields/Accepting.antt =====
-- Which descriptor lists each policy accepts.
use fsspec_data.Prelude.{
  ℕ, suc, ◌≡◌, ◌↔◌, refl, true, false, some, List, [], ◌∷◌, zip, length, enumerate_from, arith,
  eq_iff, ◌==◌, Bool-cases, ◌⊎◌, inl, inr, All, ap,
}
use fsspec_data.Errors.{Result, ok, collect, collect-cons-ok, collect-ok-cons}
use fsspec_data.DataType.{type_eq_iff}
use fsspec_data.Arrow.{Arrow}
use fsspec_data.Cast.{CastKind, safe, classify}
use fsspec_data.Policy.{SchemaPolicy, exact, projection, compatible, coerce}
use fsspec_data.Fields.{
  FieldMapping, Descriptor, classified, narrows, positional_field, compatible_field, coerce_field,
  plan_positional, plan_field_descriptors,
}
use fsspec_data.Fields.Exact.{plan_exact_iff, in_place}
use fsspec_data.Fields.Projecting.{Succeeds, Holds, Projects, plan_projection_iff}

-- The relation holds of the items at each place of two lists of one length.
abbrev pub Pairs {ℓ} : {B : Type ℓ} → (B → B → Type 0) → List B → List B → Type 0
Pairs P [] [] = Unit
Pairs P [] (t ∷ ts) = ⊥
Pairs P (s ∷ ss) [] = ⊥
Pairs P (s ∷ ss) (t ∷ ts) = P s t × Pairs P ss ts

module _ (A : Arrow) where
  abbrev pub Compatible : Descriptor A → Descriptor A → Type 0
  Compatible s t =
      (s.name ≡ t.name)
      × Holds A s t
      × ((s.data_type ≡ t.data_type) ⊎ (classified A s t ≡ some safe))

  abbrev pub Coercible : Descriptor A → Descriptor A → Type 0
  Coercible s t =
      (s.name ≡ t.name)
      × ((s.data_type ≡ t.data_type) ⊎ ((kind : CastKind) × (classified A s t ≡ some kind)))

  -- What a policy accepts.
  abbrev pub Accepts : List (Descriptor A) → List (Descriptor A) → SchemaPolicy → Type 0
  Accepts provided requested exact = provided ≡ requested
  Accepts provided requested projection = All (Projects A provided) requested
  Accepts provided requested compatible = Pairs Compatible provided requested
  Accepts provided requested coerce = Pairs Coercible provided requested

  compatible_field-ok :
      (n : ℕ) (s t : Descriptor A) (m : FieldMapping)
      → positional_field A (compatible_field A) n s t ≡ ok m
      → Compatible s t
  unfolding positional_field compatible_field classify
  compatible_field-ok n s t m h =
      ground (arith, eq_iff s.name t.name, type_eq_iff A.other_discrete s.data_type t.data_type)

  compatible_field-Compatible :
      (n : ℕ) (s t : Descriptor A)
      → Compatible s t
      → positional_field A (compatible_field A) n s t
        ≡ ok (record {
          source_index = n;
          target_index = n;
          cast = classified A s t;
          check_nulls = false;
        })
  unfolding positional_field compatible_field
  compatible_field-Compatible n s t h =
      ground (arith, eq_iff s.name t.name, type_eq_iff A.other_discrete s.data_type t.data_type)

  coerce_field-ok :
      (n : ℕ) (s t : Descriptor A) (m : FieldMapping)
      → positional_field A (coerce_field A) n s t ≡ ok m
      → Coercible s t
  unfolding positional_field coerce_field classify
  coerce_field-ok n s t m h =
      ground (arith, eq_iff s.name t.name, type_eq_iff A.other_discrete s.data_type t.data_type)

  coerce_field-Coercible :
      (n : ℕ) (s t : Descriptor A)
      → Coercible s t
      → positional_field A (coerce_field A) n s t
        ≡ ok (record {
          source_index = n;
          target_index = n;
          cast = classified A s t;
          check_nulls = narrows s t;
        })
  unfolding positional_field coerce_field
  coerce_field-Coercible n s t h =
      ground (arith, eq_iff s.name t.name, type_eq_iff A.other_discrete s.data_type t.data_type)

  -- A mapping of pairs of fields, which it makes just where the relation holds.
  record Decides (f : ℕ → Descriptor A → Descriptor A → Result A.external FieldMapping)
      (P : Descriptor A → Descriptor A → Type 0) : Type 0 where
    needs : (n : ℕ) (s t : Descriptor A) (m : FieldMapping) → f n s t ≡ ok m → P s t
    made : ℕ → Descriptor A → Descriptor A → FieldMapping
    makes : (n : ℕ) (s t : Descriptor A) → P s t → f n s t ≡ ok (made n s t)

  module _ (f : ℕ → Descriptor A → Descriptor A → Result A.external FieldMapping)
      (P : Descriptor A → Descriptor A → Type 0) (decides : Decides f P) where
    abbrev pairs_from :
        ℕ → List (Descriptor A) → List (Descriptor A) → Result A.external (List FieldMapping)
    pairs_from n p r = collect (λ e. f e.0 e.1.0 e.1.1) (enumerate_from n (zip p r))

    pairs_from-Pairs :
        (n : ℕ) (p r : List (Descriptor A)) (ms : List FieldMapping)
        → length p ≡ length r
        → pairs_from n p r ≡ ok ms
        → Pairs P p r
    pairs_from-Pairs n [] [] ms l h = tt
    pairs_from-Pairs n [] (t ∷ r) ms l h = absurd (omega arith)
    pairs_from-Pairs n (s ∷ p) [] ms l h = absurd (omega arith)
    pairs_from-Pairs n (s ∷ p) (t ∷ r) ms l h =
        let (m, rest, x, y, e) =
          collect-cons-ok _ (n, (s, t)) (enumerate_from (suc n) (zip p r)) h in
        (decides.needs n s t m x, pairs_from-Pairs (suc n) p r rest (omega arith) y)

    Pairs-length : (p r : List (Descriptor A)) → Pairs P p r → length p ≡ length r
    Pairs-length [] [] h = refl
    Pairs-length [] (t ∷ r) h = elim h [ ]
    Pairs-length (s ∷ p) [] h = elim h [ ]
    Pairs-length (s ∷ p) (t ∷ r) h = ap suc (Pairs-length p r h.1)

    Pairs-Succeeds : (n : ℕ) (p r : List (Descriptor A)) → Pairs P p r → Succeeds (pairs_from n p r)
    unfolding collect
    Pairs-Succeeds n [] [] h = ([], refl)
    Pairs-Succeeds n [] (t ∷ r) h = elim h [ ]
    Pairs-Succeeds n (s ∷ p) [] h = elim h [ ]
    Pairs-Succeeds n (s ∷ p) (t ∷ r) h =
        let (ms, e) = Pairs-Succeeds (suc n) p r h.1 in
        (
          decides.made n s t ∷ ms,
          collect-ok-cons _ (n, (s, t)) (enumerate_from (suc n) (zip p r)) (decides.makes n s t h.0)
              e,
        )

  plan_positional_iff :
      (f : ℕ → Descriptor A → Descriptor A → Result A.external FieldMapping)
      (P : Descriptor A → Descriptor A → Type 0)
      → Decides (positional_field A f) P
      → (p r : List (Descriptor A)) → Succeeds (plan_positional A f p r) ↔ Pairs P p r
  unfolding plan_positional
  plan_positional_iff f P decides p r = (to, from)
    where
      to : Succeeds (plan_positional A f p r) → Pairs P p r
      to h = elim (Bool-cases (length p == length r)) [
        | inl e ↦
            pairs_from-Pairs (positional_field A f) P decides 0 p r h.0 (ground arith) (rw e at h.1)
        | inr e ↦ cc (rw e at h.1)
      ]

      from : Pairs P p r → Succeeds (plan_positional A f p r)
      from h =
          let l : (length p == length r) ≡ true =
            ground (arith, Pairs-length (positional_field A f) P decides p r h) in
          rw l (Pairs-Succeeds (positional_field A f) P decides 0 p r h)

  -- A policy accepts a requested schema, and plans it, just where: under exact, its descriptors are the
  -- provided ones; under projection, each of its fields has exactly one provided field of its name, with
  -- its type and with nulls only where it takes them; under compatible, the fields at each place have
  -- one name, with nulls only where the requested one takes them, and one type or a safe cast; and under
  -- coerce, the fields at each place have one name, and one type or any registered cast.
  pub plan_field_descriptors_iff :
      (provided requested : List (Descriptor A)) (policy : SchemaPolicy)
      → Succeeds (plan_field_descriptors A provided requested policy)
        ↔ Accepts provided requested policy
  unfolding plan_field_descriptors
  plan_field_descriptors_iff p r exact = (
    λ h. ((plan_exact_iff A p r h.0).0 h.1).0,
    λ h. (in_place 0 p, (plan_exact_iff A p r (in_place 0 p)).1 (h, refl)),
  )
  plan_field_descriptors_iff p r projection = plan_projection_iff A p r
  plan_field_descriptors_iff p r compatible =
      plan_positional_iff (compatible_field A) Compatible
        (record {
          needs = compatible_field-ok;
          made = λ n s t. record {
            source_index = n;
            target_index = n;
            cast = classified A s t;
            check_nulls = false;
          };
          makes = compatible_field-Compatible;
        })
        p r
  plan_field_descriptors_iff p r coerce =
      plan_positional_iff (coerce_field A) Coercible
        (record {
          needs = coerce_field-ok;
          made = λ n s t. record {
            source_index = n;
            target_index = n;
            cast = classified A s t;
            check_nulls = narrows s t;
          };
          makes = coerce_field-Coercible;
        })
        p r
