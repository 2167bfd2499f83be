-- ===== src/Operations/Entries.antt =====
-- Entries of lists that the loops of `plan_operations` extend, mark and search.
use mathlib.Core.Option.{some-injective}
use fsspec_data.Prelude.{
  ℕ, zero, suc, ◌+◌, ◌≡◌, inl, inr, sym, ap, ◌∙◌, true, false, not, Bool, none, some, List, [], ◌∷◌,
  map, replicate, get_elem?, enumerate_from, filter_by, position_from, arith, Bool-cases,
}

module _ {ℓ} {A : Type ℓ} where
  pub get_elem?-replicate :
      (n : ℕ) (a : A) (i : ℕ) {x : A} → get_elem? (replicate n a) i ≡ some x → x ≡ a
  get_elem?-replicate zero a i h = cc
  get_elem?-replicate (suc n) a zero h = sym (some-injective a _ h)
  get_elem?-replicate (suc n) a (suc i) h = get_elem?-replicate n a i h

  -- A filter keeps each entry that passes.
  pub get_elem?-filter :
      (test : ℕ × A → Bool) (n : ℕ) (xs : List A) (i : ℕ) {x : A}
      → get_elem? xs i ≡ some x
      → test (n + i, x) ≡ true
      → (pos : ℕ) × (get_elem? (filter_by test (enumerate_from n xs)) pos ≡ some (n + i, x))
  get_elem?-filter test n [] i h t = cc
  get_elem?-filter test n (y ∷ xs) zero {x} h t =
      let e : ◌≡◌ {A = ℕ × A} (n, y) (n + 0, x) =
        ap (λ (z : A). (n, z)) (some-injective y x h)
        ∙ ap (λ (k : ℕ). (k, x)) {x = n} (omega arith) in
      rw (ap test e ∙ t) (0, ap (λ (z : ℕ × A). some z) e)
  get_elem?-filter test n (y ∷ xs) (suc i) {x} h t =
      let same : suc n + i ≡ n + suc i = omega arith in
      let (pos, at) = get_elem?-filter test (suc n) xs i h (ap (λ k. test (k, x)) same ∙ t) in
      let at' = at ∙ ap (λ k. some (k, x)) same in
      elim (Bool-cases (test (n, y))) [ inl e ↦ rw e (suc pos, at') | inr e ↦ rw e (pos, at') ]

pub get_elem?-map :
    {A B : Type 0} (f : A → B) (xs : List A) (i : ℕ) {x : A}
    → get_elem? xs i ≡ some x
    → get_elem? (map f xs) i ≡ some (f x)
get_elem?-map f [] i h = cc
get_elem?-map f (y ∷ xs) zero {x} h = ap (λ z. some (f z)) (some-injective y x h)
get_elem?-map f (y ∷ xs) (suc i) h = get_elem?-map f xs i h

pub position_from-none :
    (used : List Bool) (n i : ℕ) {b : Bool}
    → position_from not n used ≡ none
    → get_elem? used i ≡ some b
    → b ≡ true
position_from-none [] n i h e = cc
position_from-none (true ∷ used) n zero h e = sym (some-injective true _ e)
position_from-none (true ∷ used) n (suc i) h e = position_from-none used (suc n) i h e
position_from-none (false ∷ used) n i h e = cc
