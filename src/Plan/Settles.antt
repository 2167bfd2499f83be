-- ===== src/Plan/Settles.antt =====
-- Results that cannot be a panic, and what their errors are.
use fsspec_data.Prelude.{
  ℕ, ◌<◌, ◌≡◌, refl, true, ltb, Option, none, some, List, [], ◌∷◌, length, set, arith, map,
}
use fsspec_data.Errors.{
  Externals, InterchangeError, Result, ok, err, panic, ◌>>=◌, or_panic, collect, arrow,
}
use fsspec_data.Arrow.{Arrow, Outcome, done, failed}
use fsspec_data.Operations.{set_or_panic}
use fsspec_data.Plan.{lift}

-- The error is that of an outcome of arrow that failed.
abbrev pub IsFailure :
    {X : Externals} {B : Type 0} → Outcome X.ArrowError B → InterchangeError X → Type 0
IsFailure {X} o e = (x : X.ArrowError) × (o ≡ failed x) × (e ≡ arrow x)

module _ {X : Externals} where
  -- A value with `P`, or an error with `E`.
  abbrev pub Settles {ℓ} :
      {B : Type ℓ} → (InterchangeError X → Type 0) → (B → Type 0) → Result X B → Type 0
  Settles E P (ok b) = P b
  Settles E P (err e) = E e
  Settles E P panic = ⊥

  pub Settles-bind {ℓ κ} :
      {B : Type ℓ} {C : Type κ} (E : InterchangeError X → Type 0) (P : B → Type 0) (Q : C → Type 0)
      (m : Result X B) (f : B → Result X C)
      → Settles E P m
      → ((b : B) → P b → Settles E Q (f b))
      → Settles E Q (m >>= f)
  Settles-bind E P Q (ok b) f h k = k b h
  Settles-bind E P Q (err e) f h k = h
  Settles-bind E P Q panic f h k = h

  pub Settles-mono :
      {B : Type 0} (E : InterchangeError X → Type 0) (P Q : B → Type 0) (m : Result X B)
      → Settles E P m
      → ((b : B) → P b → Q b)
      → Settles E Q m
  Settles-mono E P Q (ok b) h k = k b h
  Settles-mono E P Q (err e) h k = h
  Settles-mono E P Q panic h k = h

  pub Settles-errors :
      {B : Type 0} (E F : InterchangeError X → Type 0) (P : B → Type 0) (m : Result X B)
      → Settles E P m
      → ((e : InterchangeError X) → E e → F e)
      → Settles F P m
  Settles-errors E F P (ok b) h k = h
  Settles-errors E F P (err e) h k = k e h
  Settles-errors E F P panic h k = h

  -- A list of values only is unwrapped without a panic.
  pub collect-or_panic {ℓ} :
      {B : Type ℓ} (xs : List B) → collect (or_panic {X = X}) (map some xs) ≡ ok xs
  unfolding collect
  collect-or_panic [] = refl
  collect-or_panic (x ∷ xs) = rw (collect-or_panic xs)

pub Settles-or_panic :
    {X : Externals} {B : Type 0} (E : InterchangeError X → Type 0) (o : Option B) {b : B}
    → o ≡ some b
    → Settles E (λ x. o ≡ some x) (or_panic {X = X} o)
Settles-or_panic E none h = cc
Settles-or_panic E (some x) h = refl

pub Settles-set :
    {X : Externals} {B : Type 0} (E : InterchangeError X → Type 0) (items : List B) (i : ℕ) (v : B)
    → i < length items
    → Settles E (λ items'. items' ≡ set items i v) (set_or_panic {X = X} items i v)
Settles-set E items i v h = let e : ltb i (length items) ≡ true = ground arith in rw e

module _ (A : Arrow) where
  pub Settles-lift :
      {B : Type 0} (o : Outcome A.external.ArrowError B)
      → Settles (IsFailure {X = A.external} o) (λ b. o ≡ done b) (lift A o)
  Settles-lift (done b) = refl
  Settles-lift (failed e) = (e, refl, refl)
