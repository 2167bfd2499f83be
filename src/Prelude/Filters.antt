-- ===== src/Prelude/Filters.antt =====
-- The one item of a list with a property, and the filters that find it.
use Prim.Native.Nat.{ℕ, suc, ◌+◌}
use mathlib.Core.Path.{◌≡◌, refl, ap, sym, ◌∙◌}
use mathlib.Core.Bool.{Bool, true, false}
use mathlib.Core.Logic.{◌⊎◌, ◌↔◌, inl, inr}
use mathlib.Core.Option.{some}
use native.Mathlib.Omega.{arith}
use mathlib.Core.List.{List, [], ◌∷◌, map}
use fsspec_data.Prelude.Tests.{Bool-cases}
use fsspec_data.Prelude.Lists.{get_elem?, filter_by, enumerate_from}
use fsspec_data.Prelude.Every.{All, All-mono, All-map}

-- The item is in the list, and is its only one with the property.
abbrev pub Sole : {B : Type 0} → (B → Type 0) → B → List B → Type 0
Sole P x [] = ⊥
Sole P x (y ∷ ys) = ((y ≡ x) × P y × All (λ z. ¬ P z) ys) ⊎ ((¬ P y) × Sole P x ys)

-- Some item of the list has the property.
abbrev pub Any : {B : Type 0} → (B → Type 0) → List B → Type 0
Any P [] = ⊥
Any P (x ∷ xs) = P x ⊎ Any P xs

module _ {B : Type 0} (test : B → Bool) (P : B → Type 0)
    (decides : (x : B) → (test x ≡ true) ↔ P x) where
  failing : (x : B) → test x ≡ false → ¬ P x
  failing x e p = cc (e, (decides x).1 p)

  pub filter-All : (xs : List B) → filter_by test xs ≡ [] → All (λ x. ¬ P x) xs
  filter-All [] h = tt
  filter-All (x ∷ xs) h = elim (Bool-cases (test x)) [
    | inl e ↦ cc (rw e at h)
    | inr e ↦ (failing x e, filter-All xs (rw e at h))
  ]

  pub All-filter : (xs : List B) → All (λ x. ¬ P x) xs → filter_by test xs ≡ []
  All-filter [] h = refl
  All-filter (x ∷ xs) h = elim (Bool-cases (test x)) [
    | inl e ↦ absurd (h.0 ((decides x).0 e))
    | inr e ↦ rw e (All-filter xs h.1)
  ]

  pub filter-Sole : (xs : List B) (x : B) → filter_by test xs ≡ x ∷ [] → Sole P x xs
  filter-Sole [] x h = cc
  filter-Sole (y ∷ ys) x h = elim (Bool-cases (test y)) [
    | inl e ↦
        let kept : y ∷ filter_by test ys ≡ x ∷ [] = rw e at h in
        inl (cc kept, (decides y).0 e, filter-All ys (cc kept))
    | inr e ↦ inr (failing y e, filter-Sole ys x (rw e at h))
  ]

  pub Sole-filter : (xs : List B) (x : B) → Sole P x xs → filter_by test xs ≡ x ∷ []
  Sole-filter [] x h = elim h [ ]
  Sole-filter (y ∷ ys) x (inl h) = rw ((decides y).1 h.1, All-filter ys h.2) (ap (λ z. z ∷ []) h.0)
  Sole-filter (y ∷ ys) x (inr h) = elim (Bool-cases (test y)) [
    | inl e ↦ absurd (h.0 ((decides y).0 e))
    | inr e ↦ rw e (Sole-filter ys x h.1)
  ]

module _ {B : Type 0} (P Q : B → Type 0) where
  pub Sole-mono : ((x : B) → P x ↔ Q x) → (xs : List B) (x : B) → Sole P x xs → Sole Q x xs
  Sole-mono same [] x h = elim h [ ]
  Sole-mono same (y ∷ ys) x (inl h) =
      inl (h.0, (same y).0 h.1, All-mono _ _ (λ z n q. n ((same z).1 q)) ys h.2)
  Sole-mono same (y ∷ ys) x (inr h) = inr (λ q. h.0 ((same y).1 q), Sole-mono same ys x h.1)

module _ {B : Type 0} {C : Type 0} (P : C → Type 0) (g : B → C) where
  pub map-All : (xs : List B) → All (λ z. ¬ P z) (map g xs) → All (λ z. ¬ P (g z)) xs
  map-All [] h = tt
  map-All (x ∷ xs) h = (h.0, map-All xs h.1)

  pub map-Sole :
      (xs : List B) (y : C) → Sole P y (map g xs) → (x : B) × (g x ≡ y) × Sole (λ x. P (g x)) x xs
  map-Sole [] y h = elim h [ ]
  map-Sole (x ∷ xs) y (inl h) = (x, h.0, inl (refl, h.1, map-All xs h.2))
  map-Sole (x ∷ xs) y (inr h) = let (z, e, s) = map-Sole xs y h.1 in (z, e, inr (h.0, s))

  pub Sole-map : (xs : List B) (x : B) → Sole (λ x. P (g x)) x xs → Sole P (g x) (map g xs)
  Sole-map [] x h = elim h [ ]
  Sole-map (y ∷ ys) x (inl h) = inl (ap g h.0, h.1, All-map (λ z. ¬ P z) g ys h.2)
  Sole-map (y ∷ ys) x (inr h) = inr (h.0, Sole-map ys x h.1)

module _ {B : Type 0} (test : B → Bool) (P : B → Type 0) where
  abbrev Passes : B → Type 0
  Passes x = (test x ≡ true) × P x

  pub filtered-All :
      (xs : List B) → All (λ x. ¬ P x) (filter_by test xs) → All (λ x. ¬ ((test x ≡ true) × P x)) xs
  filtered-All [] h = tt
  filtered-All (x ∷ xs) h = elim (Bool-cases (test x)) [
    | inl e ↦
        let kept : All (λ x. ¬ P x) (x ∷ filter_by test xs) = rw e at h in
        (λ p. kept.0 p.1, filtered-All xs kept.1)
    | inr e ↦ (λ p. cc (e, p.0), filtered-All xs (rw e at h))
  ]

  pub All-filtered :
      (xs : List B) → All (λ x. ¬ ((test x ≡ true) × P x)) xs → All (λ x. ¬ P x) (filter_by test xs)
  All-filtered [] h = tt
  All-filtered (x ∷ xs) h = elim (Bool-cases (test x)) [
    | inl e ↦ rw e (λ p. h.0 (e, p), All-filtered xs h.1)
    | inr e ↦ rw e (All-filtered xs h.1)
  ]

  pub filtered-Sole :
      (xs : List B) (x : B) → Sole P x (filter_by test xs) → Sole (λ x. (test x ≡ true) × P x) x xs
  filtered-Sole [] x h = elim h [ ]
  filtered-Sole (y ∷ ys) x h = elim (Bool-cases (test y)) [
    | inl e ↦
        let kept : Sole P x (y ∷ filter_by test ys) = rw e at h in
        elim kept [
          | inl k ↦ inl (k.0, (e, k.1), filtered-All ys k.2)
          | inr k ↦ inr (λ p. k.0 p.1, filtered-Sole ys x k.1)
        ]
    | inr e ↦ inr (λ p. cc (e, p.0), filtered-Sole ys x (rw e at h))
  ]

  pub Sole-filtered :
      (xs : List B) (x : B) → Sole (λ x. (test x ≡ true) × P x) x xs → Sole P x (filter_by test xs)
  Sole-filtered [] x h = elim h [ ]
  Sole-filtered (y ∷ ys) x (inl h) = rw h.1.0 (inl (h.0, h.1.1, All-filtered ys h.2))
  Sole-filtered (y ∷ ys) x (inr h) = elim (Bool-cases (test y)) [
    | inl e ↦ rw e (inr (λ p. h.0 (e, p), Sole-filtered ys x h.1))
    | inr e ↦ rw e (Sole-filtered ys x h.1)
  ]

module _ {B : Type 0} (P : B → Type 0) where
  pub enumerate-All :
      (n : ℕ) (xs : List B) → All (λ e. ¬ P e.1) (enumerate_from n xs) → All (λ x. ¬ P x) xs
  enumerate-All n [] h = tt
  enumerate-All n (x ∷ xs) h = (h.0, enumerate-All (suc n) xs h.1)

  pub All-enumerate :
      (n : ℕ) (xs : List B) → All (λ x. ¬ P x) xs → All (λ e. ¬ P e.1) (enumerate_from n xs)
  All-enumerate n [] h = tt
  All-enumerate n (x ∷ xs) h = (h.0, All-enumerate (suc n) xs h.1)

  pub enumerate-Sole :
      (n : ℕ) (xs : List B) (e : ℕ × B) → Sole (λ e. P e.1) e (enumerate_from n xs) → Sole P e.1 xs
  enumerate-Sole n [] e h = elim h [ ]
  enumerate-Sole n (x ∷ xs) e (inl h) = inl (ap (λ e. e.1) h.0, h.1, enumerate-All (suc n) xs h.2)
  enumerate-Sole n (x ∷ xs) e (inr h) = inr (h.0, enumerate-Sole (suc n) xs e h.1)

  pub Sole-enumerate :
      (n : ℕ) (xs : List B) (x : B)
      → Sole P x xs
      → (i : ℕ) × Sole (λ e. P e.1) (i, x) (enumerate_from n xs)
  Sole-enumerate n [] x h = elim h [ ]
  Sole-enumerate n (y ∷ ys) x (inl h) =
      (n, inl (ap (λ y. (n, y)) h.0, h.1, All-enumerate (suc n) ys h.2))
  Sole-enumerate n (y ∷ ys) x (inr h) =
      let (i, s) = Sole-enumerate (suc n) ys x h.1 in (i, inr (h.0, s))

  -- The number of the one item is its place.
  pub Sole-get_elem? :
      (n : ℕ) (xs : List B) (e : ℕ × B)
      → Sole (λ e. P e.1) e (enumerate_from n xs)
      → (i : ℕ) × (e.0 ≡ n + i) × (get_elem? xs i ≡ some e.1)
  Sole-get_elem? n [] e h = elim h [ ]
  Sole-get_elem? n (x ∷ xs) e (inl h) =
      (0, ap (λ e. e.0) (sym h.0) ∙ omega arith, ap (λ e. some e.1) h.0)
  Sole-get_elem? n (x ∷ xs) e (inr h) =
      let (i, at, stands) = Sole-get_elem? (suc n) xs e h.1 in (suc i, omega (arith, at), stands)
