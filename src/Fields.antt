-- ===== src/Fields.antt =====
-- rust/src/plan.rs: field descriptors, and the planners of the four policies.
pub mod Exact
pub mod Nesting
pub mod Projecting
pub mod Accepting
use fsspec_data.Prelude.{
  ℕ, zero, suc, String, Bool, true, false, not, ◌&&◌, ◌||◌, ◌==◌, str_eq, Option, none, some, List,
  [], ◌∷◌, map, zip, length, filter_by, enumerate_from, if◌then◌else◌,
}
use fsspec_data.Errors.{
  Externals, Result, ok, err, ◌>>=◌, ◌>>◌, guard, collect, InterchangeError, field_count,
  field_name, missing_field, ambiguous_field, type_mismatch, nullability, unsafe_cast,
  unsupported_cast, exact_nullability,
}
use fsspec_data.DataType.{DataType, type_eq}
use fsspec_data.Arrow.{Arrow}
use fsspec_data.Cast.{CastKind, safe, lossy, runtime_checked, classify}
use fsspec_data.Policy.{SchemaPolicy, exact, projection, compatible, coerce}

pub record FieldDescriptor (O : Type 0) : Type 0 where
  pub name : String
  pub data_type : DataType O
  pub nullable : Bool

pub record FieldMapping : Type 0 where
  pub source_index : ℕ
  pub target_index : ℕ
  pub cast : Option CastKind
  pub check_nulls : Bool

-- `source.nullable && !target.nullable`
abbrev pub narrows : {O : Type 0} → FieldDescriptor O → FieldDescriptor O → Bool
narrows source target = source.nullable && not target.nullable

-- `left == right` of two `bool`s
abbrev pub bool_eq : Bool → Bool → Bool
bool_eq true b = b
bool_eq false b = not b

module _ (A : Arrow) where
  abbrev pub Descriptor : Type 0
  Descriptor = FieldDescriptor A.Other

  abbrev pub same_type : Descriptor → Descriptor → Bool
  same_type source target = type_eq A.other_discrete source.data_type target.data_type

  abbrev pub classified : Descriptor → Descriptor → Option CastKind
  classified source target = classify A.other_discrete source.data_type target.data_type

  -- An error that names a field and the two types.
  abbrev pub type_error :
      (String → String → String → InterchangeError A.external)
      → Descriptor
      → Descriptor
      → InterchangeError A.external
  type_error e source target = e target.name (A.debug source.data_type) (A.debug target.data_type)

  -- `validate_field`
  unfoldable pub validate_field : Descriptor → Descriptor → Result A.external (Unit {0})
  validate_field source target = do
    guard (same_type source target) (type_error type_mismatch source target)
    guard (not (narrows source target)) (nullability target.name)

  -- `validate_nullability`
  unfoldable pub validate_nullability :
      Descriptor → Descriptor → Bool → Result A.external (Unit {0})
  validate_nullability source target allow_runtime_check =
      guard (not (narrows source target && not allow_runtime_check)) (nullability target.name)

  -- the closure of `plan_exact`
  unfoldable pub exact_field : ℕ → Descriptor → Descriptor → Result A.external FieldMapping
  unfolding validate_field
  exact_field index source target = do
    guard (str_eq source.name target.name) (field_name index source.name target.name)
    validate_field source target
    guard (bool_eq source.nullable target.nullable)
        (exact_nullability target.name source.nullable target.nullable)
    ok (record { source_index = index; target_index = index; cast = none; check_nulls = false })

  -- `provided.iter().zip(requested).enumerate().map(…).collect()`
  unfoldable pub plan_pairs :
      (ℕ → Descriptor → Descriptor → Result A.external FieldMapping)
      → List Descriptor
      → List Descriptor
      → Result A.external (List FieldMapping)
  plan_pairs mapping provided requested =
      collect (λ entry. mapping entry.0 entry.1.0 entry.1.1)
        (enumerate_from 0 (zip provided requested))

  -- `plan_exact`
  unfoldable pub plan_exact :
      List Descriptor → List Descriptor → Result A.external (List FieldMapping)
  unfolding exact_field plan_pairs
  plan_exact provided requested = do
    guard (length provided == length requested) (field_count (length provided) (length requested))
    plan_pairs exact_field provided requested

  -- the closure of `plan_positional`
  unfoldable pub positional_field :
      (ℕ → Descriptor → Descriptor → Result A.external FieldMapping)
      → ℕ
      → Descriptor
      → Descriptor
      → Result A.external FieldMapping
  positional_field mapping index source target = do
    guard (str_eq source.name target.name) (field_name index source.name target.name)
    mapping index source target

  -- `plan_positional`
  unfoldable pub plan_positional :
      (ℕ → Descriptor → Descriptor → Result A.external FieldMapping)
      → List Descriptor
      → List Descriptor
      → Result A.external (List FieldMapping)
  unfolding positional_field plan_pairs
  plan_positional mapping provided requested = do
    guard (length provided == length requested) (field_count (length provided) (length requested))
    plan_pairs (positional_field mapping) provided requested

  abbrev is_safe : Option CastKind → Bool
  is_safe (some safe) = true
  is_safe (some lossy) = false
  is_safe (some runtime_checked) = false
  is_safe none = false

  abbrev is_some : Option CastKind → Bool
  is_some (some k) = true
  is_some none = false

  -- the closure of `plan_compatible`
  unfoldable pub compatible_field : ℕ → Descriptor → Descriptor → Result A.external FieldMapping
  unfolding validate_nullability
  compatible_field index source target = do
    validate_nullability source target false
    let cast = classified source target
    guard (same_type source target || is_safe cast) (type_error unsafe_cast source target)
    ok (record { source_index = index; target_index = index; cast = cast; check_nulls = false })

  -- the closure of `plan_coerce`
  unfoldable pub coerce_field : ℕ → Descriptor → Descriptor → Result A.external FieldMapping
  coerce_field index source target = do
    let cast = classified source target
    guard (same_type source target || is_some cast) (type_error unsupported_cast source target)
    ok (record {
      source_index = index;
      target_index = index;
      cast = cast;
      check_nulls = narrows source target;
    })

  -- `match matches.as_slice()` of `plan_projection`
  unfoldable pub sole_match :
      Descriptor → List (ℕ × Descriptor) → Result A.external (ℕ × Descriptor)
  sole_match target [] = err (missing_field target.name)
  sole_match target (entry ∷ []) = ok entry
  sole_match target (entry ∷ other ∷ rest) = err (ambiguous_field target.name)

  -- the closure of `plan_projection`
  unfoldable pub projection_field :
      List Descriptor → ℕ → Descriptor → Result A.external FieldMapping
  unfolding sole_match validate_field
  projection_field provided target_index target = do
    entry ←
        sole_match target (filter_by (λ e. str_eq e.1.name target.name) (enumerate_from 0 provided))
    validate_field entry.1 target
    ok (record {
      source_index = entry.0;
      target_index = target_index;
      cast = none;
      check_nulls = false;
    })

  -- `plan_projection`
  unfoldable pub plan_projection :
      List Descriptor → List Descriptor → Result A.external (List FieldMapping)
  unfolding projection_field
  plan_projection provided requested =
      collect (λ entry. projection_field provided entry.0 entry.1) (enumerate_from 0 requested)

  -- `plan_field_descriptors`, with `plan_compatible` and `plan_coerce`
  unfoldable pub plan_field_descriptors :
      List Descriptor → List Descriptor → SchemaPolicy → Result A.external (List FieldMapping)
  unfolding plan_exact plan_projection plan_positional compatible_field coerce_field
  plan_field_descriptors provided requested exact = plan_exact provided requested
  plan_field_descriptors provided requested projection = plan_projection provided requested
  plan_field_descriptors provided requested compatible =
      plan_positional compatible_field provided requested
  plan_field_descriptors provided requested coerce = plan_positional coerce_field provided requested
