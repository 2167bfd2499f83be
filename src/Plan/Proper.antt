-- ===== src/Plan/Proper.antt =====
-- Results that are no panic.
use mathlib.Core.Option.{some-injective}
use fsspec_data.Prelude.{
  ℕ, suc, ◌+◌, ◌<◌, ◌≡◌, ◌≢◌, Bool, Bool-cases, inl, inr, true, false, some, List, [], ◌∷◌, length,
  position_from, arith, if◌then◌else◌,
}
use fsspec_data.Errors.{Externals, Result, ok, err, panic, ◌>>=◌, collect}

abbrev pub Always : {B : Type 0} → B → Type 0
Always b = Unit {0}

module _ {X : Externals} where
  -- A value with `P`, or an error.
  abbrev pub Proper : {B : Type 0} → (B → Type 0) → Result X B → Type 0
  Proper P (ok b) = P b
  Proper P (err e) = Unit {0}
  Proper P panic = ⊥

  pub Proper-bind :
      {B C : Type 0} (P : B → Type 0) (Q : C → Type 0) (m : Result X B) (f : B → Result X C)
      → Proper P m
      → ((b : B) → P b → Proper Q (f b))
      → Proper Q (m >>= f)
  Proper-bind P Q (ok b) f h k = k b h
  Proper-bind P Q (err e) f h k = tt
  Proper-bind P Q panic f h k = h

  pub if-Proper :
      {B : Type 0} (P : B → Type 0) (b : Bool) (x y : Result X B)
      → Proper P x
      → Proper P y
      → Proper P (if b then x else y)
  if-Proper P true x y h k = h
  if-Proper P false x y h k = k

  pub collect-Proper :
      {B C : Type 0} (f : B → Result X C)
      → ((b : B) → Proper Always (f b))
      → (xs : List B) → Proper Always (collect f xs)
  unfolding collect
  collect-Proper f h [] = tt
  collect-Proper f h (x ∷ xs) =
      Proper-bind Always Always (f x) _ (h x)
        λ y _. Proper-bind Always Always (collect f xs) _ (collect-Proper f h xs) λ ys _. tt

  pub Proper-not_panic : {B : Type 0} (P : B → Type 0) (r : Result X B) → Proper P r → r ≢ panic
  Proper-not_panic P (ok b) h e = cc
  Proper-not_panic P (err x) h e = cc
  Proper-not_panic P panic h e = h

pub position_from-lt :
    {B : Type 0} (test : B → Bool) (n : ℕ) (xs : List B) {p : ℕ}
    → position_from test n xs ≡ some p
    → p < n + length xs
position_from-lt test n [] h = cc
position_from-lt test n (x ∷ xs) {p} h = elim (Bool-cases (test x)) [
  | inl e ↦ let same : n ≡ p = some-injective n p (rw e at h) in omega (arith, same)
  | inr e ↦ omega (arith, position_from-lt test (suc n) xs (rw e at h))
]
