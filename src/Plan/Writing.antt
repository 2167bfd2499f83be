-- ===== src/Plan/Writing.antt =====
-- Writing into a list of optional values, one index after another.
use fsspec_data.Prelude.{
  ℕ, zero, suc, ◌<◌, ◌≡◌, refl, sym, ap, ◌∙◌, Option, some, List, [], ◌∷◌, ◌++◌, length, set, arith,
  All, length-set,
}

module _ {ℓ} {A : Type ℓ} where
  -- `items[i] = Some(value)` for each of the writes
  abbrev pub write : List (Option A) → List (ℕ × A) → List (Option A)
  write items [] = items
  write items ((i, v) ∷ ws) = write (set items i (some v)) ws

  pub length-write :
      (items : List (Option A)) (ws : List (ℕ × A)) → length (write items ws) ≡ length items
  length-write items [] = refl
  length-write items ((i, v) ∷ ws) =
      length-write (set items i (some v)) ws ∙ length-set items i (some v)

  set_comm :
      (items : List (Option A)) (i j : ℕ) (v w : Option A)
      → i < j
      → set (set items i v) j w ≡ set (set items j w) i v
  set_comm [] i j v w h = refl
  set_comm (x ∷ xs) zero zero v w h = absurd (omega arith)
  set_comm (x ∷ xs) zero (suc j) v w h = refl
  set_comm (x ∷ xs) (suc i) zero v w h = absurd (omega arith)
  set_comm (x ∷ xs) (suc i) (suc j) v w h = ap (λ l. x ∷ l) (set_comm xs i j v w (omega arith))

  -- A write below all others may be made before or after them.
  pub set-write :
      (items : List (Option A)) (i : ℕ) (v : A) (ws : List (ℕ × A))
      → All (λ w. i < w.0) ws
      → set (write items ws) i (some v) ≡ write (set items i (some v)) ws
  set-write items i v [] h = refl
  set-write items i v ((j, w) ∷ ws) h =
      set-write (set items j (some w)) i v ws h.1
      ∙ ap (λ l. write l ws) (sym (set_comm items i j (some v) (some w) h.0))

  -- A write just behind a prefix extends it.
  pub set_behind :
      (pre : List (Option A)) (n : ℕ) (x : Option A) (rest : List (Option A)) (v : Option A)
      → length pre ≡ n
      → set (pre ++ x ∷ rest) n v ≡ (pre ++ v ∷ []) ++ rest
  set_behind [] zero x rest v e = refl
  set_behind [] (suc n) x rest v e = absurd (omega arith)
  set_behind (y ∷ pre) zero x rest v e = absurd (omega arith)
  set_behind (y ∷ pre) (suc n) x rest v e =
      ap (λ l. y ∷ l) (set_behind pre n x rest v (omega arith))
