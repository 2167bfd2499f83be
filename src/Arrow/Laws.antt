-- ===== src/Arrow/Laws.antt =====
-- Documented behaviour of the arrow operations, as far as the source relies on it.
use mathlib.Core.Path.{subst₂}
use mathlib.Core.Option.{some-injective}
use fsspec_data.Prelude.{
  ℕ, zero, suc, Bool, true, false, ◌≡◌, ◌≢◌, ◌↔◌, refl, ap, List, [], ◌∷◌, some, length, get_elem?,
}
use fsspec_data.DataType.{DataType, null}
use fsspec_data.Arrow.{Arrow, done}

module _ (A : Arrow) where
  -- One column of a batch fits its field: its type, its number of rows, and no nulls if the field
  -- takes none.
  pub record FitsField (rows : ℕ) (field : A.Field) (column : A.Array) : Type 0 where
    pub of_type : A.array_type column ≡ A.field_type field
    pub of_length : A.len column ≡ rows
    pub no_nulls : A.is_nullable field ≡ false → A.null_count column ≡ 0

  abbrev pub FitsFields : ℕ → List A.Field → List A.Array → Type 0
  FitsFields rows [] [] = Unit
  FitsFields rows [] (c ∷ cs) = ⊥
  FitsFields rows (f ∷ fs) [] = ⊥
  FitsFields rows (f ∷ fs) (c ∷ cs) = FitsField rows f c × FitsFields rows fs cs

  -- What arrow ensures of every `RecordBatch`.
  pub record IsBatch (batch : A.RecordBatch) : Type 0 where
    pub fits : FitsFields (A.num_rows batch) (A.fields (A.schema batch)) (A.columns batch)

  pub record ArrowLaws : Type 0 where
    pub schema_eq_iff : (s t : A.Schema) → (A.schema_eq s t ≡ true) ↔ (s ≡ t)
    -- a cast returns the type that was asked for and keeps the number of values
    pub cast_type :
        (safe : Bool) (a b : A.Array) (t : DataType A.Other)
        → A.cast_with_options safe a t ≡ done b
        → (A.array_type b ≡ t) × (A.len b ≡ A.len a)
    -- with `safe: false` a value that cannot be cast is an error and not a null; a cast from the null
    -- type makes nulls
    pub cast_nulls :
        (a b : A.Array) (t : DataType A.Other)
        → A.array_type a ≢ null
        → A.cast_with_options false a t ≡ done b
        → A.null_count a ≡ 0
        → A.null_count b ≡ 0
    -- `RecordBatch::try_new_with_options` accepts the columns that fit the schema
    pub try_new_fits :
        (s : A.Schema) (cs : List A.Array) (rows : ℕ)
        → FitsFields rows (A.fields s) cs
        → (b : A.RecordBatch) × (A.try_new_with_options s cs rows ≡ done b)
    -- and no others, and what it returns holds them
    pub try_new_holds :
        (s : A.Schema) (cs : List A.Array) (rows : ℕ) (b : A.RecordBatch)
        → A.try_new_with_options s cs rows ≡ done b
        → (A.schema b ≡ s)
          × (A.columns b ≡ cs)
          × (A.num_rows b ≡ rows)
          × FitsFields rows (A.fields s) cs

  pub FitsFields-length :
      (rows : ℕ) (fs : List A.Field) (cs : List A.Array)
      → FitsFields rows fs cs
      → length cs ≡ length fs
  FitsFields-length rows [] [] h = refl
  FitsFields-length rows [] (c ∷ cs) h = elim h [ ]
  FitsFields-length rows (f ∷ fs) [] h = elim h [ ]
  FitsFields-length rows (f ∷ fs) (c ∷ cs) h = ap suc (FitsFields-length rows fs cs h.1)

  pub FitsFields-at :
      (rows : ℕ) (fs : List A.Field) (cs : List A.Array) (i : ℕ) {f : A.Field} {c : A.Array}
      → FitsFields rows fs cs
      → get_elem? fs i ≡ some f
      → get_elem? cs i ≡ some c
      → FitsField rows f c
  FitsFields-at rows [] cs i h p q = cc
  FitsFields-at rows (g ∷ fs) [] i h p q = cc
  FitsFields-at rows (g ∷ fs) (d ∷ cs) zero h p q =
      subst₂ (FitsField rows) (some-injective g _ p) (some-injective d _ q) h.0
  FitsFields-at rows (g ∷ fs) (d ∷ cs) (suc i) h p q = FitsFields-at rows fs cs i h.1 p q
