-- ===== src/Plan/Columns.antt =====
-- The columns that the two loops of `apply_batch` write.
use mathlib.Core.List.{append_assoc}
use fsspec_data.Prelude.{
  ℕ, suc, ◌<◌, ◌≡◌, refl, ap, ◌∙◌, Option, none, some, List, [], ◌∷◌, ◌++◌, map, length, set,
  replicate, arith, All, length-append, zip,
}
use fsspec_data.Arrow.{Arrow}
use fsspec_data.Policy.{SchemaPolicy}
use fsspec_data.Fields.{FieldMapping, Descriptor}
use fsspec_data.Operations.{FieldAddition, ProjectionOptions}
use fsspec_data.Operations.Fills.{IsMapping, IsAddition, Fills, filled, mapped, added}
use fsspec_data.Plan.Writing.{write, set-write, set_behind}

module _ (A : Arrow) where
  -- One column for each mapping, or each addition.
  abbrev pub MappedAll :
      (FieldMapping → A.Array → Type 0) → List FieldMapping → List A.Array → Type 0
  MappedAll P [] [] = Unit
  MappedAll P [] (c ∷ cs) = ⊥
  MappedAll P (m ∷ ms) [] = ⊥
  MappedAll P (m ∷ ms) (c ∷ cs) = P m c × MappedAll P ms cs

  abbrev pub AddedAll :
      (FieldAddition A → A.Array → Type 0) → List (FieldAddition A) → List A.Array → Type 0
  AddedAll P [] [] = Unit
  AddedAll P [] (c ∷ cs) = ⊥
  AddedAll P (b ∷ bs) [] = ⊥
  AddedAll P (b ∷ bs) (c ∷ cs) = P b c × AddedAll P bs cs

  abbrev pub mapped_writes : List FieldMapping → List A.Array → List (ℕ × A.Array)
  mapped_writes ms cs = zip (map (λ m. m.target_index) ms) cs

  abbrev pub added_writes : List (FieldAddition A) → List A.Array → List (ℕ × A.Array)
  added_writes bs cs = zip (map (λ b. b.target_index) bs) cs

module _ (A : Arrow) (provided : List (Descriptor A)) (policy : SchemaPolicy)
    (options : ProjectionOptions A) (Mapped : FieldMapping → A.Array → Type 0)
    (Added : FieldAddition A → A.Array → Type 0) where
  -- The column of one requested field: a mapped one, or an added one.
  pub data ColumnFor (n : ℕ) (target : Descriptor A) (c : A.Array) : Type 0 where
    from_source :
        (m : FieldMapping)
        → IsMapping A provided policy options n target m
        → Mapped m c
        → ColumnFor n target c
    from_default :
        (a : FieldAddition A)
        → IsAddition A provided policy options n target a
        → Added a c
        → ColumnFor n target c

  abbrev pub ColumnsFor : ℕ → List (Descriptor A) → List A.Array → Type 0
  ColumnsFor n [] [] = Unit
  ColumnsFor n [] (c ∷ cs) = ⊥
  ColumnsFor n (t ∷ r) [] = ⊥
  ColumnsFor n (t ∷ r) (c ∷ cs) = ColumnFor n t c × ColumnsFor (suc n) r cs

  above :
      (k n : ℕ) (r : List (Descriptor A)) {ms : List FieldMapping} {bs : List (FieldAddition A)}
      (cs : List A.Array)
      → k < n
      → Fills A provided policy options n r ms bs
      → All (λ w. k < w.0) (mapped_writes A ms cs)
  above k n r cs h filled = tt
  above k n r [] h (mapped p f) = tt
  above k n r (c ∷ cs) h (mapped p f) = (omega (arith, p.at_target), above k _ _ cs (omega arith) f)
  above k n r cs h (added p f) = above k _ _ cs (omega arith) f

  placed :
      (pre : List (Option A.Array)) (n i : ℕ) (c : A.Array) (rest : List (Option A.Array))
      → length pre ≡ n
      → i ≡ n
      → set (pre ++ none ∷ rest) i (some c) ≡ (pre ++ some c ∷ []) ++ rest
  placed pre n i c rest e at = rw at (set_behind pre n none rest (some c) e)

  -- Both loops together write one column for each requested field, in the order of the fields.
  pub columns_written :
      (n : ℕ) (r : List (Descriptor A)) {ms : List FieldMapping} {bs : List (FieldAddition A)}
      (cs ds : List A.Array) (pre : List (Option A.Array))
      → length pre ≡ n
      → Fills A provided policy options n r ms bs
      → MappedAll A Mapped ms cs
      → AddedAll A Added bs ds
      → (columns : List A.Array) × ColumnsFor n r columns
        × (write
              (write (pre ++ replicate (length r) none) (mapped_writes A ms cs))
              (added_writes A bs ds)
            ≡ pre ++ map some columns)
  columns_written n r [] [] pre e filled hm ha = ([], tt, refl)
  columns_written n _ [] (d ∷ ds) pre e filled hm ha = elim ha [ ]
  columns_written n _ (c ∷ cs) ds pre e filled hm ha = elim hm [ ]
  columns_written n _ [] ds pre e (mapped p f) hm ha = elim hm [ ]
  columns_written n _ cs [] pre e (added p f) hm ha = elim ha [ ]
  columns_written n _ (c ∷ cs) ds pre e (mapped {r = r} {m = m} {ms = ms} {bs = bs} p f) hm ha =
      let (columns, fits, eq) =
        columns_written (suc n) r cs ds (pre ++ some c ∷ [])
          (omega (arith, length-append pre (some c ∷ []))) f hm.1 ha in
      (
        c ∷ columns,
        (from_source m p hm.0, fits),
        ap (λ l. write (write l (mapped_writes A ms cs)) (added_writes A bs ds))
              (placed pre n m.target_index c _ e p.at_target)
            ∙ eq
            ∙ append_assoc pre (some c ∷ []) (map some columns),
      )
  columns_written n _ cs (d ∷ ds) pre e (added {r = r} {a = a} {ms = ms} {bs = bs} p f) hm ha =
      let (columns, fits, eq) =
        columns_written (suc n) r cs ds (pre ++ some d ∷ [])
          (omega (arith, length-append pre (some d ∷ []))) f hm ha.1 in
      (
        d ∷ columns,
        (from_default a p ha.0, fits),
        ap (λ l. write l (added_writes A bs ds))
              (set-write _ a.target_index d (mapped_writes A ms cs)
                (above a.target_index (suc n) r cs (omega (arith, p.at_target)) f))
            ∙ ap (λ l. write (write l (mapped_writes A ms cs)) (added_writes A bs ds))
                (placed pre n a.target_index d _ e p.at_target)
            ∙ eq
            ∙ append_assoc pre (some d ∷ []) (map some columns),
      )
