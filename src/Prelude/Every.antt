-- ===== src/Prelude/Every.antt =====
-- A predicate on every item of a list.
use Prim.Native.Nat.{ℕ, zero, suc, ◌+◌}
use mathlib.Core.Path.{◌≡◌, refl}
use mathlib.Core.Bool.{Bool, true}
use mathlib.Core.Logic.{inl, inr}
use mathlib.Core.List.{List, [], ◌∷◌, map}
use mathlib.Core.Option
use mathlib.Core.Option.{none, some}
use native.Mathlib.Omega.{arith}
use fsspec_data.Prelude.Tests.{Bool-cases}
use fsspec_data.Prelude.Lists.{get_elem?, filter_by, enumerate_from}

module _ {ℓ κ} {A : Type ℓ} where
  abbrev pub All : (A → Type κ) → List A → Type κ
  All P [] = Unit
  All P (x ∷ xs) = P x × All P xs

  pub All-get_elem? :
      (P : A → Type κ) (xs : List A) (i : ℕ) {x : A} → All P xs → get_elem? xs i ≡ some x → P x
  All-get_elem? P [] i h e = cc
  All-get_elem? P (y ∷ xs) zero {x = x} h e = subst_some y x h.0 e
    where
      subst_some : (y x : A) → P y → some y ≡ some x → P x
      subst_some y x p e = rw (← Option.some-injective y x e) p
  All-get_elem? P (y ∷ xs) (suc i) h e = All-get_elem? P xs i h.1 e

pub All-mono {ℓ κ μ} :
    {A : Type ℓ} (P : A → Type κ) (Q : A → Type μ)
    → ((x : A) → P x → Q x)
    → (xs : List A) → All P xs
    → All Q xs
All-mono P Q f [] h = tt
All-mono P Q f (x ∷ xs) h = (f x h.0, All-mono P Q f xs h.1)

pub All-map {ℓ κ μ} :
    {A : Type ℓ} {B : Type μ} (P : A → Type κ) (f : B → A) (xs : List B)
    → All (λ b. P (f b)) xs
    → All P (map f xs)
All-map P f [] h = tt
All-map P f (x ∷ xs) h = (h.0, All-map P f xs h.1)

module _ {ℓ} {A : Type ℓ} where
  -- An entry of `enumerate` from `n` that a filter kept.
  pub record Selected (test : ℕ × A → Bool) (n : ℕ) (xs : List A) (e : ℕ × A) : Type ℓ where
    pub kept : test e ≡ true
    pub offset : ℕ
    pub counts : e.0 ≡ n + offset
    pub stands : get_elem? xs offset ≡ some e.1

  Selected-suc :
      (test : ℕ × A → Bool) (n : ℕ) (x : A) (xs : List A) (e : ℕ × A)
      → Selected test (suc n) xs e
      → Selected test n (x ∷ xs) e
  Selected-suc test n x xs e s = record {
    kept = s.kept;
    offset = suc s.offset;
    counts = omega (arith, s.counts);
    stands = s.stands;
  }

  pub All-filter-enumerate :
      (test : ℕ × A → Bool) (n : ℕ) (xs : List A)
      → All (Selected test n xs) (filter_by test (enumerate_from n xs))
  All-filter-enumerate test n [] = tt
  All-filter-enumerate test n (x ∷ xs) =
      let rest = All-mono _ _ (Selected-suc test n x xs) _ (All-filter-enumerate test (suc n) xs) in
      elim (Bool-cases (test (n, x))) [
        | inl e ↦ rw e (record { kept = e; offset = 0; counts = omega arith; stands = refl }, rest)
        | inr e ↦ rw e rest
      ]
