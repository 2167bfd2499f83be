-- ===== src/HashMap.antt =====
-- Rust's `HashMap` with text keys, as the list of its entries. The order of the list is the order of
-- iteration, which Rust leaves open; a key stands once.
use fsspec_data.Prelude.{
  String, Bool, true, false, Option, none, some, List, [], ◌∷◌, map, str_eq, if◌then◌else◌,
}

abbrev pub HashMap {ℓ} : Type ℓ → Type ℓ
HashMap V = List (String × V)

module _ {ℓ} {V : Type ℓ} where
  -- `get(key)`
  unfoldable pub get : String → HashMap V → Option V
  get k [] = none
  get k ((j, v) ∷ m) = if str_eq j k then some v else get k m

  abbrev pub keys : HashMap V → List String
  keys = map (λ e. e.0)

  abbrev pub values : HashMap V → List V
  values = map (λ e. e.1)

-- `contains_key(key)`
abbrev pub contains_key {ℓ} : {V : Type ℓ} → String → HashMap V → Bool
contains_key k m = elim (get k m) [ none ↦ false | some v ↦ true ]
