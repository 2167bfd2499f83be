-- ===== src/Stateful.antt =====
-- Rust methods on `&mut self` that return a `Result`: state passing that keeps the state of a call that
-- fails.
use fsspec_data.Prelude.{◌⊎◌, inl, inr, ◌≡◌, refl, ap}
use fsspec_data.Arrow.{Outcome, done, failed}

abbrev pub M : Type 0 → Type 0 → Type 0 → Type 0
M S E A = S → Outcome E A × S

abbrev pub pure : {S E A : Type 0} → A → M S E A
pure a s = (done a, s)

abbrev pub raise : {S E A : Type 0} → E → M S E A
raise e s = (failed e, s)

abbrev pub continue : {S E A B : Type 0} → Outcome E A → S → (A → M S E B) → Outcome E B × S
continue (done a) s f = f a s
continue (failed e) s f = (failed e, s)

infixl 5 ◌>>=◌ ◌>>◌
abbrev pub ◌>>=◌ : {S E A B : Type 0} → M S E A → (A → M S E B) → M S E B
◌>>=◌ m f s = continue (m s).0 (m s).1 f

abbrev pub ◌>>◌ : {S E B : Type 0} → M S E (Unit {0}) → M S E B → M S E B
m >> k = m >>= λ _. k

-- The rest of a block after a call that returned, and after one that failed.
module _ {S E A B : Type 0} (m : M S E A) (f : A → M S E B) (s : S) where
  pub >>=-done : {a : A} {s' : S} → m s ≡ (done a, s') → (m >>= f) s ≡ f a s'
  >>=-done h = ap (λ r. continue r.0 r.1 f) h

  pub >>=-failed : {e : E} {s' : S} → m s ≡ (failed e, s') → (m >>= f) s ≡ (failed e, s')
  >>=-failed h = ap (λ r. continue r.0 r.1 f) h

  -- The two steps behind a block that returned a value.
  pub done->>= :
      {b : B} {s'' : S}
      → (m >>= f) s ≡ (done b, s'')
      → (a : A) × (s' : S) × (m s ≡ (done a, s')) × (f a s' ≡ (done b, s''))
  done->>= {b} {s''} h = go (m s) refl h
    where
      go :
          (r : Outcome E A × S)
          → m s ≡ r
          → continue r.0 r.1 f ≡ (done b, s'')
          → (a : A) × (s' : S) × (m s ≡ (done a, s')) × (f a s' ≡ (done b, s''))
      go (done a, s') e h = (a, s', e, h)
      go (failed x, s') e h = cc

-- A property of the result that holds after every return and of every failure.
pub >>=-result {ℓ} :
    {S E A B : Type 0} (P : Outcome E B → Type ℓ) (m : M S E A) (f : A → M S E B) (s : S)
    → ((a : A) (s' : S) → m s ≡ (done a, s') → P (f a s').0)
    → ((e : E) → P (failed e))
    → P ((m >>= f) s).0
>>=-result {S} {E} {A} P m f s h g = go (m s) refl
  where
    go : (r : Outcome E A × S) → m s ≡ r → P (continue r.0 r.1 f).0
    go (done a, s') e = h a s' e
    go (failed x, s') e = g x

pub done-injective : {E A : Type 0} (a b : A) → ◌≡◌ {A = Outcome E A} (done a) (done b) → a ≡ b
done-injective a b h = ap (λ r. elim r [ done x ↦ x | failed e ↦ a ]) h

pub Outcome-cases :
    {E A : Type 0} (o : Outcome E A) → ((a : A) × (o ≡ done a)) ⊎ ((e : E) × (o ≡ failed e))
Outcome-cases (done a) = inl (a, refl)
Outcome-cases (failed e) = inr (e, refl)
