-- ===== src/Errors.antt =====
-- rust/src/error.rs: the errors, and the results of fallible operations.
use fsspec_data.Prelude.{
  ℕ, String, Bool, true, false, ◌≡◌, refl, ap, Option, none, some, List, [], ◌∷◌,
}

-- The error types of the standard library, of arrow and of parquet, which the source only wraps.
pub record Externals : Type 1 where
  pub IoError : Type 0
  pub ArrowError : Type 0
  pub ParquetError : Type 0

pub data InterchangeError (X : Externals) : Type 0 where
  unknown_format codec_not_registered codec_writer_not_supported : String → InterchangeError X
  decode_schema_required unsupported_policy : String → InterchangeError X
  unsupported_format : String → String → InterchangeError X
  field_count : ℕ → ℕ → InterchangeError X
  field_name : ℕ → String → String → InterchangeError X
  missing_field ambiguous_field : String → InterchangeError X
  type_mismatch : String → String → String → InterchangeError X
  nullability : String → InterchangeError X
  unsafe_cast unsupported_cast : String → String → String → InterchangeError X
  runtime_nullability : String → InterchangeError X
  exact_nullability : String → Bool → Bool → InterchangeError X
  exact_operations : InterchangeError X
  missing_provided_field rename_drop_conflict : String → InterchangeError X
  unknown_requested_field : String → String → InterchangeError X
  default_conflict unmapped_field default_length null_default : String → InterchangeError X
  default_cast : String → String → X.ArrowError → InterchangeError X
  cast_not_allowed : String → String → String → InterchangeError X
  unknown_cast_kind : String → InterchangeError X
  input_schema invalid_batch_size stream_cancelled : InterchangeError X
  byte_limit_exceeded : ℕ → ℕ → InterchangeError X
  io : X.IoError → InterchangeError X
  arrow : X.ArrowError → InterchangeError X
  parquet : X.ParquetError → InterchangeError X

-- What a call comes to: a value, an error value, or a panic (an index out of bounds, or `unwrap`
-- of `None`).
pub data Result {ℓ} (X : Externals) (A : Type ℓ) : Type ℓ where
  ok : A → Result X A
  err : InterchangeError X → Result X A
  panic : Result X A

infixl 5 ◌>>=◌ ◌>>◌
abbrev pub ◌>>=◌ {ℓ κ} :
    {X : Externals} {A : Type ℓ} {B : Type κ} → Result X A → (A → Result X B) → Result X B
ok a >>= f = f a
err e >>= f = err e
panic >>= f = panic

abbrev pub ◌>>◌ {ℓ} : {X : Externals} {B : Type ℓ} → Result X (Unit {0}) → Result X B → Result X B
m >> k = m >>= λ _. k

abbrev pub guard : {X : Externals} → Bool → InterchangeError X → Result X (Unit {0})
guard true e = ok tt
guard false e = err e

-- `items[i]`
abbrev pub or_panic {ℓ} : {X : Externals} {A : Type ℓ} → Option A → Result X A
or_panic none = panic
or_panic (some a) = ok a

-- `iter().map(f).collect::<Result<Vec<_>>>()`: the calls run in order, up to the first that fails.
unfoldable pub collect {ℓ κ} :
    {X : Externals} {A : Type ℓ} {B : Type κ} → (A → Result X B) → List A → Result X (List B)
collect f [] = ok []
collect f (x ∷ xs) = do y ← f x; ys ← collect f xs; ok (y ∷ ys)

-- The two steps behind a bind that returned a value.
pub bind_ok {ℓ κ} :
    {X : Externals} {A : Type ℓ} {B : Type κ} (r : Result X A) (next : A → Result X B) {out : B}
    → (r >>= next) ≡ ok out
    → (value : A) × (r ≡ ok value) × (next value ≡ ok out)
bind_ok (ok value) next returned = (value, refl, returned)
bind_ok (err e) next returned = cc
bind_ok panic next returned = cc

module _ {ℓ κ} {X : Externals} {A : Type ℓ} {B : Type κ} where
  pub collect-cons-ok :
      (f : A → Result X B) (x : A) (xs : List A) {ys : List B}
      → collect f (x ∷ xs) ≡ ok ys
      → (y : B) × (zs : List B) × (f x ≡ ok y) × (collect f xs ≡ ok zs) × (y ∷ zs ≡ ys)
  unfolding collect
  collect-cons-ok f x xs h =
      let (y, p, q) = bind_ok (f x) _ h in
      let (zs, r, e) = bind_ok (collect f xs) _ q in (y, zs, p, r, cc e)

  pub collect-ok-cons :
      (f : A → Result X B) (x : A) (xs : List A) {y : B} {ys : List B}
      → f x ≡ ok y
      → collect f xs ≡ ok ys
      → collect f (x ∷ xs) ≡ ok (y ∷ ys)
  unfolding collect
  collect-ok-cons f x xs p q = rw (p, q)

  -- What succeeds with `f` succeeds with a `g` that agrees with `f` where `f` succeeds.
  pub collect_mono :
      (f g : A → Result X B)
      → ((x : A) (y : B) → f x ≡ ok y → g x ≡ ok y)
      → (xs : List A) {ys : List B} → collect f xs ≡ ok ys
      → collect g xs ≡ ok ys
  unfolding collect
  collect_mono f g h [] e = e
  collect_mono f g h (x ∷ xs) e =
      let (y, zs, p, q, r) = collect-cons-ok f x xs e in
      rw (← r) (collect-ok-cons g x xs (h x y p) (collect_mono f g h xs q))

pub ok-injective {ℓ} :
    {X : Externals} {A : Type ℓ} (a b : A) → ◌≡◌ {A = Result X A} (ok a) (ok b) → a ≡ b
ok-injective a b h = ap (λ r. elim r [ ok x ↦ x | err e ↦ a | panic ↦ a ]) h

pub or_panic-ok {ℓ} :
    {X : Externals} {A : Type ℓ} (o : Option A) {a : A} → or_panic {X = X} o ≡ ok a → o ≡ some a
or_panic-ok none h = cc
or_panic-ok (some b) h = cc

pub guard-ok {ℓ} :
    {X : Externals} {A : Type ℓ} (b : Bool) (e : InterchangeError X) (k : Result X A) {a : A}
    → (guard b e >>= λ _. k) ≡ ok a
    → (b ≡ true) × (k ≡ ok a)
guard-ok true e k h = (refl, h)
guard-ok false e k h = cc
