-- ===== src/Plan/Total/Checks.antt =====
-- What `plan_operations` checks before and in its loop does not panic.
use fsspec_data.Prelude.{
  ℕ, String, str_eq, find_by, filter_by, ◌++◌, zero, suc, inl, inr, Option-cases, false, not,
  Option, none, some, List, [], ◌∷◌, length, arith,
}
use fsspec_data.Errors.{◌>>=◌}
use fsspec_data.Arrow.{Arrow}
use fsspec_data.Cast.{CastKind}
use fsspec_data.Stateful.{Outcome-cases}
use fsspec_data.Policy.{SchemaPolicy}
use fsspec_data.HashMap.{contains_key, keys, values}
use fsspec_data.Fields.{Descriptor, classified}
use fsspec_data.Operations.{
  or_else, policy_limit, occurs_once, is_requested, ProjectionOptions, check_cast, plan_mapping,
  cast_default, plan_addition, check_provided, check_conflicts, check_requested, check_operations,
}
use fsspec_data.Plan.Proper.{Always, Proper}

module _ (A : Arrow) where
  cast-Proper :
      (s t : Descriptor A) (cast limit : Option CastKind)
      → Proper Always (check_cast A s t cast limit)
  unfolding check_cast
  cast-Proper s t cast none = tt
  cast-Proper s t none (some max) = tt
  cast-Proper s t (some kind) (some max) = ground arith

  pub mapping-Proper :
      (i j : ℕ) (s t : Descriptor A) (policy : SchemaPolicy) (o : Option CastKind)
      → Proper Always (plan_mapping A i j s t policy o)
  unfolding plan_mapping
  mapping-Proper i j s t policy o =
      ground (arith, cast-Proper s t (classified A s t) (or_else o (policy_limit policy)))

  default-Proper : (t : Descriptor A) (value : A.Array) → Proper Always (cast_default A t value)
  unfolding cast_default
  default-Proper t value = elim (Outcome-cases (A.cast_with_options false value t.data_type)) [
    | inl (b, e) ↦ rw (cast_default, e) tt
    | inr (x, e) ↦ rw (cast_default, e) tt
  ]

  pub addition-Proper :
      (i : ℕ) (t : Descriptor A) (value : A.Array) → Proper Always (plan_addition A i t value)
  unfolding plan_addition
  addition-Proper i t value = ground (arith, default-Proper t value)

  provided-Proper :
      (provided : List (Descriptor A)) (names : List String)
      → Proper Always (check_provided A provided names)
  unfolding check_provided
  provided-Proper provided [] = tt
  provided-Proper provided (name ∷ names) =
      go (length (filter_by (λ field. str_eq field.name name) provided))
        (provided-Proper provided names)
    where
      go :
          (n : ℕ)
          → Proper Always (check_provided A provided names)
          → Proper Always (occurs_once A name n >>= λ _. check_provided A provided names)
      go zero h = tt
      go (suc zero) h = h
      go (suc (suc n)) h = tt

  conflicts-Proper : (options : ProjectionOptions A) → Proper Always (check_conflicts A options)
  unfolding check_conflicts
  conflicts-Proper options =
      elim (Option-cases (find_by (λ name. contains_key name options.renames) options.drop)) [
        | inl e ↦ rw (check_conflicts, e) tt
        | inr (x, e) ↦ rw (check_conflicts, e) tt
      ]

  requested-Proper :
      (requested : List (Descriptor A)) (operation : String) (names : List String)
      → Proper Always (check_requested A requested operation names)
  unfolding check_requested
  requested-Proper requested operation names =
      elim (Option-cases (find_by (λ name. not (is_requested A requested name)) names)) [
        | inl e ↦ rw (check_requested, e) tt
        | inr (x, e) ↦ rw (check_requested, e) tt
      ]

  pub operations-Proper :
      (provided requested : List (Descriptor A)) (policy : SchemaPolicy)
      (options : ProjectionOptions A)
      → Proper Always (check_operations A provided requested policy options)
  unfolding check_operations
  operations-Proper provided requested policy options = ground (
    arith,
    provided-Proper provided (keys options.renames ++ options.drop),
    conflicts-Proper options,
    requested-Proper requested "rename" (values options.renames),
    requested-Proper requested "default" (keys options.defaults),
    requested-Proper requested "cast" (keys options.casts),
  )
