-- ===== src/Stream/Rows.antt =====
-- The rows of batches and of the items of a source, and what the loop of `next` keeps of them.
use fsspec_data.Prelude.{
  ℕ, zero, suc, ◌+◌, ◌≤◌, ◌<◌, ◌≡◌, refl, sym, ap, ◌∙◌, Bool-cases, inl, inr, false, ltb, Option,
  none, some, List, [], ◌∷◌, ◌++◌, length, take, drop, arith,
}
use fsspec_data.Arrow.{Arrow, done, failed}
use fsspec_data.Stream.{Item, Found, found, exhausted, broken, search_source, search}

module _ {ℓ} {A : Type ℓ} where
  pub take-drop : (n : ℕ) (xs : List A) → take n xs ++ drop n xs ≡ xs
  take-drop zero xs = refl
  take-drop (suc n) [] = refl
  take-drop (suc n) (x ∷ xs) = ap (λ ys. x ∷ ys) (take-drop n xs)

  pub drop_all : (n : ℕ) (xs : List A) → length xs ≤ n → drop n xs ≡ []
  drop_all zero [] h = refl
  drop_all (suc n) [] h = refl
  drop_all zero (x ∷ xs) h = ground arith
  drop_all (suc n) (x ∷ xs) h = drop_all n xs (omega arith)

  pub drop-drop : (n m : ℕ) (xs : List A) → drop n (drop m xs) ≡ drop (m + n) xs
  drop-drop n zero xs = ap (λ k. drop k xs) (omega arith)
  drop-drop n (suc m) [] = drop_all n [] (omega arith) ∙ sym (drop_all (suc m + n) [] (omega arith))
  drop-drop n (suc m) (x ∷ xs) =
      drop-drop n m xs ∙ ap (λ k. drop k (x ∷ xs)) {x = suc (m + n)} (omega arith)

  pub take_all : (n : ℕ) (xs : List A) → length xs ≤ n → take n xs ≡ xs
  take_all zero [] h = refl
  take_all (suc n) [] h = refl
  take_all zero (x ∷ xs) h = ground arith
  take_all (suc n) (x ∷ xs) h = ap (λ ys. x ∷ ys) (take_all n xs (omega arith))

  pub length-take : (n : ℕ) (xs : List A) → n ≤ length xs → length (take n xs) ≡ n
  length-take zero xs h = refl
  length-take (suc n) [] h = ground arith
  length-take (suc n) (x ∷ xs) h = ap suc (length-take n xs (omega arith))

  pub length-drop : (n : ℕ) (xs : List A) → n ≤ length xs → length (drop n xs) + n ≡ length xs
  length-drop zero xs h = omega arith
  length-drop (suc n) [] h = ground arith
  length-drop (suc n) (x ∷ xs) h = omega (arith, length-drop n xs (omega arith))

  -- The first part of an append is taken whole.
  pub take-append : (n : ℕ) (xs ys : List A) → take (length xs + n) (xs ++ ys) ≡ xs ++ take n ys
  take-append n [] ys = ap (λ k. take k ys) (omega arith)
  take-append n (x ∷ xs) ys =
      ap (λ k. take k (x ∷ xs ++ ys)) {y = suc (length xs + n)} (omega arith)
      ∙ ap (λ zs. x ∷ zs) (take-append n xs ys)

-- What a stream relies on of arrow's batches: a batch has as many rows as `num_rows` says, and
-- `slice` has the rows from the offset on.
pub record RowLaws (A : Arrow) : Type 1 where
  pub Row : Type 0
  pub rows : A.RecordBatch → List Row
  pub length-rows : (b : A.RecordBatch) → length (rows b) ≡ A.num_rows b
  pub rows-slice :
      (b : A.RecordBatch) (offset n : ℕ)
      → offset + n ≤ A.num_rows b
      → rows (A.slice b offset n) ≡ take n (drop offset (rows b))

module _ (A : Arrow) (laws : RowLaws A) where
  -- the rows of a source before its first error
  abbrev pub source_rows : List (Item A) → List laws.Row
  source_rows [] = []
  source_rows (done b ∷ source) = laws.rows b ++ source_rows source
  source_rows (failed e ∷ source) = []

  abbrev pub pending_rows : Option (A.RecordBatch × ℕ) → List laws.Row
  pending_rows none = []
  pending_rows (some (b, offset)) = drop offset (laws.rows b)

  -- What the loop finds holds all the rows that were left.
  abbrev pub FoundRows : List laws.Row → Found A → Type 0
  FoundRows left (found b offset source) =
      (offset < A.num_rows b) × (left ≡ drop offset (laws.rows b) ++ source_rows source)
  FoundRows left exhausted = left ≡ []
  FoundRows left (broken e source) = left ≡ []

  search_source-FoundRows :
      (source : List (Item A)) → FoundRows (source_rows source) (search_source A source)
  unfolding search_source
  search_source-FoundRows [] = refl
  search_source-FoundRows (failed e ∷ source) = refl
  search_source-FoundRows (done b ∷ source) = elim (Bool-cases (ltb 0 (A.num_rows b))) [
    | inl e ↦ rw e (ground arith, refl)
    | inr e ↦
        let empty : laws.rows b ≡ [] =
          drop_all 0 (laws.rows b) (omega (arith, laws.length-rows b, none_left e)) in
        rw (e, empty) (search_source-FoundRows source)
  ]
    where
      none_left : ltb 0 (A.num_rows b) ≡ false → A.num_rows b ≤ 0
      none_left e = ground arith

  pub search-FoundRows :
      (pending : Option (A.RecordBatch × ℕ)) (source : List (Item A))
      → FoundRows (pending_rows pending ++ source_rows source) (search A pending source)
  unfolding search
  search-FoundRows none source = search_source-FoundRows source
  search-FoundRows (some (b, offset)) source = elim (Bool-cases (ltb offset (A.num_rows b))) [
    | inl e ↦ rw e (ground arith, refl)
    | inr e ↦
        let empty : drop offset (laws.rows b) ≡ [] =
          drop_all offset (laws.rows b) (ground (arith, laws.length-rows b)) in
        rw (e, empty) (search_source-FoundRows source)
  ]
