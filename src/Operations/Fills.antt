-- ===== src/Operations/Fills.antt =====
-- What a plan promises: each requested field is filled once, in order, from a provided field or from a
-- default.
use fsspec_data.Prelude.{ℕ, suc, ◌≡◌, false, none, some, List, [], ◌∷◌, get_elem?}
use fsspec_data.Errors.{ok}
use fsspec_data.Arrow.{Arrow}
use fsspec_data.Policy.{SchemaPolicy}
use fsspec_data.HashMap.{get}
use fsspec_data.Fields.{FieldMapping, Descriptor, narrows, classified}
use fsspec_data.Operations.{
  FieldAddition, ProjectionOptions, is_coerce, renamed, is_dropped, plan_addition,
}

module _ (A : Arrow) (provided : List (Descriptor A)) (policy : SchemaPolicy)
    (options : ProjectionOptions A) where
  -- The mapping fills the requested field `target` at index `n`.
  pub record IsMapping (n : ℕ) (target : Descriptor A) (m : FieldMapping) : Type 0 where
    pub source : Descriptor A
    pub at_source : get_elem? provided m.source_index ≡ some source
    pub at_target : m.target_index ≡ n
    pub named : renamed A options source.name ≡ target.name
    pub kept : is_dropped A options source.name ≡ false
    pub cast_eq : m.cast ≡ classified A source target
    pub uncast : m.cast ≡ none → source.data_type ≡ target.data_type
    pub nulls : m.check_nulls ≡ narrows source target
    pub narrowing : is_coerce policy ≡ false → m.check_nulls ≡ false

  -- The addition fills it.
  pub record IsAddition (n : ℕ) (target : Descriptor A) (a : FieldAddition A) : Type 0 where
    pub at_target : a.target_index ≡ n
    pub default : A.Array
    pub from_default : get target.name options.defaults ≡ some default
    pub planned : plan_addition A n target default ≡ ok a

  pub data Fills
      : ℕ → List (Descriptor A) → List FieldMapping → List (FieldAddition A) → Type 0 where
    filled : {n : ℕ} → Fills n [] [] []
    mapped :
        {n : ℕ} {t : Descriptor A} {r : List (Descriptor A)} {m : FieldMapping}
        {ms : List FieldMapping} {bs : List (FieldAddition A)}
        → IsMapping n t m
        → Fills (suc n) r ms bs
        → Fills n (t ∷ r) (m ∷ ms) bs
    added :
        {n : ℕ} {t : Descriptor A} {r : List (Descriptor A)} {a : FieldAddition A}
        {ms : List FieldMapping} {bs : List (FieldAddition A)}
        → IsAddition n t a
        → Fills (suc n) r ms bs
        → Fills n (t ∷ r) ms (a ∷ bs)
