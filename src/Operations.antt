-- ===== src/Operations.antt =====
-- rust/src/plan.rs: projection options, and the planner that applies them.
pub mod Fills
pub mod Sources
pub mod Planning
pub mod Entries
pub mod Usage
pub mod Checks
pub mod Filling
pub mod Feeding
pub mod Looping
pub mod Accepting
use mathlib.Core.Option
use fsspec_data.Prelude.{
  ℕ, zero, suc, String, Bool, true, false, not, ◌&&◌, ◌==◌, ltb, str_eq, Option, none, some, List,
  [], ◌∷◌, ◌++◌, map, length, replicate, get_elem?, set, filter_by, find_by, any_by, enumerate_from,
  position_from, if◌then◌else◌,
}
use fsspec_data.Errors.{
  Externals, Result, ok, err, panic, ◌>>=◌, ◌>>◌, guard, or_panic, missing_field, ambiguous_field,
  type_mismatch, nullability, unsupported_cast, exact_operations, missing_provided_field,
  rename_drop_conflict, unknown_requested_field, default_conflict, unmapped_field, default_length,
  null_default, default_cast, cast_not_allowed,
}
use fsspec_data.Arrow.{Arrow, done, failed}
use fsspec_data.Cast
use fsspec_data.Cast.{CastKind, safe, lossy, rank}
use fsspec_data.Policy.{SchemaPolicy, exact, projection, compatible, coerce}
use fsspec_data.HashMap.{HashMap, get, keys, values, contains_key}
use fsspec_data.Fields.{
  FieldMapping, FieldDescriptor, Descriptor, narrows, same_type, type_error, classified,
}

abbrev pub is_exact : SchemaPolicy → Bool
is_exact exact = true
is_exact projection = false
is_exact compatible = false
is_exact coerce = false

abbrev pub is_projection : SchemaPolicy → Bool
is_projection exact = false
is_projection projection = true
is_projection compatible = false
is_projection coerce = false

abbrev pub is_coerce : SchemaPolicy → Bool
is_coerce exact = false
is_coerce projection = false
is_coerce compatible = false
is_coerce coerce = true

-- the most permissive cast that a policy allows by itself
abbrev pub policy_limit : SchemaPolicy → Option CastKind
policy_limit exact = none
policy_limit projection = none
policy_limit compatible = some safe
policy_limit coerce = some lossy

-- `first.or(second)`
abbrev pub or_else {ℓ} : {A : Type ℓ} → Option A → Option A → Option A
or_else (some a) o = some a
or_else none o = o

abbrev pub is_empty {ℓ} : {A : Type ℓ} → List A → Bool
is_empty [] = true
is_empty (x ∷ xs) = false

-- `items[i] = value`
abbrev pub set_or_panic {ℓ} : {X : Externals} {A : Type ℓ} → List A → ℕ → A → Result X (List A)
set_or_panic items i value = if ltb i (length items) then ok (set items i value) else panic

module _ (A : Arrow) where
  -- A requested field filled with one value.
  pub record FieldAddition : Type 0 where
    pub target_index : ℕ
    pub value : A.Array

  pub record ProjectionOptions : Type 0 where
    pub renames : HashMap String
    pub defaults : HashMap A.Array
    pub drop : List String
    pub casts : HashMap CastKind

  -- `ProjectionOptions::default`
  abbrev pub no_options : ProjectionOptions
  no_options = record { renames = []; defaults = []; drop = []; casts = [] }

  -- `ProjectionOptions::is_empty`
  abbrev pub no_operations : ProjectionOptions → Bool
  no_operations o = is_empty o.renames && is_empty o.defaults && is_empty o.drop && is_empty o.casts

  -- the `match (cast, allowed)` of `plan_mapping`
  unfoldable pub check_cast :
      Descriptor A → Descriptor A → Option CastKind → Option CastKind → Result A.external (Unit {0})
  check_cast source target cast none = err (type_error A type_mismatch source target)
  check_cast source target none (some max) = err (type_error A unsupported_cast source target)
  check_cast source target (some kind) (some max) =
      if ltb (rank max) (rank kind)
      then err (cast_not_allowed target.name (Cast.as_str kind) (Cast.as_str max))
      else ok tt

  -- `plan_mapping`
  unfoldable pub plan_mapping :
      ℕ
      → ℕ
      → Descriptor A
      → Descriptor A
      → SchemaPolicy
      → Option CastKind
      → Result A.external FieldMapping
  unfolding check_cast
  plan_mapping source_index target_index source target policy cast_override = do
    let cast = classified A source target
    let allowed = or_else cast_override (policy_limit policy)
    if same_type A source target then ok tt else check_cast source target cast allowed
    let check_nulls = narrows source target
    guard (not (check_nulls && not (is_coerce policy))) (nullability target.name)
    ok (record {
      source_index = source_index;
      target_index = target_index;
      cast = cast;
      check_nulls = check_nulls;
    })

  -- `cast_with_options(value, …).map_err(DefaultCast)`
  unfoldable pub cast_default : Descriptor A → A.Array → Result A.external A.Array
  cast_default target value = elim (A.cast_with_options false value target.data_type) [
    | done array ↦ ok array
    | failed e ↦ err (default_cast target.name (A.debug target.data_type) e)
  ]

  -- `plan_addition`
  unfoldable pub plan_addition : ℕ → Descriptor A → A.Array → Result A.external FieldAddition
  unfolding cast_default
  plan_addition target_index target value = do
    guard (A.len value == 1) (default_length target.name)
    filled ←
        if A.is_null value 0
        then (do
          guard target.nullable (null_default target.name)
          ok (A.new_null_array target.data_type 1))
        else cast_default target value
    ok (record { target_index = target_index; value = filled })

  -- one round of the loop over renamed and dropped names
  abbrev pub occurs_once : String → ℕ → Result A.external (Unit {0})
  occurs_once name zero = err (missing_provided_field name)
  occurs_once name (suc zero) = ok tt
  occurs_once name (suc (suc n)) = err (ambiguous_field name)

  unfoldable pub check_provided : List (Descriptor A) → List String → Result A.external (Unit {0})
  check_provided provided [] = ok tt
  check_provided provided (name ∷ names) = do
    occurs_once name (length (filter_by (λ field. str_eq field.name name) provided))
    check_provided provided names

  -- `options.drop.iter().find(…)`
  unfoldable pub check_conflicts : ProjectionOptions → Result A.external (Unit {0})
  check_conflicts options =
      elim (find_by (λ name. contains_key name options.renames) options.drop) [
        | some name ↦ err (rename_drop_conflict name)
        | none ↦ ok tt
      ]

  abbrev pub is_requested : List (Descriptor A) → String → Bool
  is_requested requested name = any_by (λ field. str_eq field.name name) requested

  -- one round of the loop over `requested_names`
  unfoldable pub check_requested :
      List (Descriptor A) → String → List String → Result A.external (Unit {0})
  check_requested requested operation names =
      elim (find_by (λ name. not (is_requested requested name)) names) [
        | some name ↦ err (unknown_requested_field operation name)
        | none ↦ ok tt
      ]

  abbrev renamed : ProjectionOptions → String → String
  renamed options name = Option.get_or (get name options.renames) name

  abbrev pub is_dropped : ProjectionOptions → String → Bool
  is_dropped options name = any_by (λ dropped. str_eq dropped name) options.drop

  -- the fields that are not dropped, each with its index and its name after the renames
  unfoldable pub source_names : List (Descriptor A) → ProjectionOptions → List (ℕ × String)
  source_names provided options =
      map (λ e. (e.0, renamed options e.1.name))
        (filter_by (λ e. not (is_dropped options e.1.name)) (enumerate_from 0 provided))

  -- the positions in `sources` of a requested name
  unfoldable pub matching : List (ℕ × String) → String → List ℕ
  matching sources name =
      map (λ e. e.0) (filter_by (λ e. str_eq e.1.1 name) (enumerate_from 0 sources))

  -- the local variables of the loop
  pub record Progress : Type 0 where
    pub used : List Bool
    pub mappings : List FieldMapping
    pub additions : List FieldAddition

  module _ (provided : List (Descriptor A)) (sources : List (ℕ × String)) (policy : SchemaPolicy)
      (options : ProjectionOptions) where
    -- the `match` of the loop's body
    unfoldable pub fill :
        Progress → ℕ → Descriptor A → List ℕ → Option A.Array → Result A.external Progress
    fill st target_index target [] (some value) = do
      addition ← plan_addition target_index target value
      ok (record st { additions = st.additions ++ addition ∷ [] })
    fill st target_index target [] none = err (missing_field target.name)
    fill st target_index target (position ∷ []) none = do
      used ← set_or_panic st.used position true
      entry ← or_panic (get_elem? sources position)
      source ← or_panic (get_elem? provided entry.0)
      mapping ←
          plan_mapping entry.0 target_index source target policy (get target.name options.casts)
      ok (record st { used = used; mappings = st.mappings ++ mapping ∷ [] })
    fill st target_index target (position ∷ []) (some value) = err (default_conflict target.name)
    fill st target_index target (position ∷ other ∷ rest) default =
        err (ambiguous_field target.name)

    -- the loop over the requested fields
    unfoldable pub fill_all : Progress → List (ℕ × Descriptor A) → Result A.external Progress
    fill_all st [] = ok st
    fill_all st ((target_index, target) ∷ rest) = do
      st' ←
          fill st target_index target (matching sources target.name)
            (get target.name options.defaults)
      fill_all st' rest

    -- `used.iter().position(|used| !used)`
    unfoldable pub check_used : List Bool → Result A.external (Unit {0})
    check_used used = elim (position_from not 0 used) [
      | some position ↦ do
        entry ← or_panic (get_elem? sources position)
        field ← or_panic (get_elem? provided entry.0)
        err (unmapped_field field.name)
      | none ↦ ok tt
    ]

  -- `plan_operations`, up to the search for sources
  unfoldable pub check_operations :
      List (Descriptor A)
      → List (Descriptor A)
      → SchemaPolicy
      → ProjectionOptions
      → Result A.external (Unit {0})
  unfolding check_provided check_conflicts check_requested
  check_operations provided requested policy options = do
    guard (not (is_exact policy)) exact_operations
    check_provided provided (keys options.renames ++ options.drop)
    check_conflicts options
    check_requested requested "rename" (values options.renames)
    check_requested requested "default" (keys options.defaults)
    check_requested requested "cast" (keys options.casts)

  -- the locals before the loop
  abbrev pub start : List (ℕ × String) → Progress
  start sources = record { used = replicate (length sources) false; mappings = []; additions = [] }

  -- `plan_operations`
  unfoldable pub plan_operations :
      List (Descriptor A)
      → List (Descriptor A)
      → SchemaPolicy
      → ProjectionOptions
      → Result A.external (List FieldMapping × List FieldAddition)
  plan_operations provided requested policy options = do
    check_operations provided requested policy options
    let sources = source_names provided options
    st ← fill_all provided sources policy options (start sources) (enumerate_from 0 requested)
    if is_projection policy then ok tt else check_used provided sources policy options st.used
    ok (st.mappings, st.additions)
