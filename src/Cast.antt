-- ===== src/Cast.antt =====
-- rust/src/plan.rs: `CastKind` and the registry that classifies casts.
pub mod Names
pub mod Order
pub mod Integers
use fsspec_data.Prelude.{
  ℕ, String, Bool, true, false, ◌&&◌, ◌||◌, Option, none, some, ltb, str_eq, if◌then◌else◌,
}
use fsspec_data.Errors.{Externals, Result, ok, err, unknown_cast_kind}
use fsspec_data.DataType.{
  DataType, null, boolean, int8, int16, int32, int64, uint8, uint16, uint32, uint64, float16,
  float32, float64, utf8, large_utf8, date32, date64, type_eq,
}

pub data CastKind : Type 0 where
  safe lossy runtime_checked : CastKind

-- `CastKind::parse`
unfoldable pub parse : {X : Externals} → String → Result X CastKind
parse value =
    if str_eq value "safe"
    then ok safe
    else if str_eq value "lossy"
    then ok lossy
    else if str_eq value "runtime_checked"
    then ok runtime_checked
    else err (unknown_cast_kind value)

-- `CastKind::as_str`
unfoldable pub as_str : CastKind → String
as_str safe = "safe"
as_str lossy = "lossy"
as_str runtime_checked = "runtime_checked"

-- `CastKind::rank`: runtime-checked casts fail on bad values, lossy casts do not.
unfoldable pub rank : CastKind → ℕ
rank safe = 0
rank runtime_checked = 1
rank lossy = 2

abbrev is_some : Option ℕ → Bool
is_some none = false
is_some (some n) = true

-- `if let (Some(source), Some(target)) = … { return Some(if source < target …) }`
abbrev widening : Option ℕ → Option ℕ → Option CastKind
widening (some s) (some t) = some (if ltb s t then safe else lossy)
widening _ _ = none

-- `if let Some(kind) = first { return Some(kind) }`, and what follows it
abbrev first_of_two : Option CastKind → Option CastKind → Option CastKind
first_of_two (some k) rest = some k
first_of_two none rest = rest

module _ {O : Type 0} where
  unfoldable pub signed_rank : DataType O → Option ℕ
  signed_rank int8 = some 0
  signed_rank int16 = some 1
  signed_rank int32 = some 2
  signed_rank int64 = some 3
  signed_rank _ = none

  unfoldable pub unsigned_rank : DataType O → Option ℕ
  unsigned_rank uint8 = some 0
  unsigned_rank uint16 = some 1
  unsigned_rank uint32 = some 2
  unsigned_rank uint64 = some 3
  unsigned_rank _ = none

  abbrev is_float : DataType O → Bool
  is_float float16 = true
  is_float float32 = true
  is_float float64 = true
  is_float _ = false

  unfoldable pub is_numeric : DataType O → Bool
  unfolding signed_rank unsigned_rank
  is_numeric t = is_some (signed_rank t) || is_some (unsigned_rank t) || is_float t

  abbrev is_text : DataType O → Bool
  is_text utf8 = true
  is_text large_utf8 = true
  is_text _ = false

  -- the arms of the `match` that have no guard
  fixed_cast : DataType O → DataType O → Option CastKind
  fixed_cast float16 float32 = some safe
  fixed_cast float16 float64 = some safe
  fixed_cast float32 float64 = some safe
  fixed_cast utf8 large_utf8 = some safe
  fixed_cast date32 date64 = some safe
  fixed_cast float32 float16 = some lossy
  fixed_cast float64 float16 = some lossy
  fixed_cast float64 float32 = some lossy
  fixed_cast date64 date32 = some lossy
  fixed_cast _ _ = none

  large_to_utf8 : DataType O → DataType O → Option CastKind
  large_to_utf8 large_utf8 utf8 = some runtime_checked
  large_to_utf8 _ _ = none

  -- `source == &Null`
  abbrev is_null : DataType O → Bool
  is_null null = true
  is_null _ = false

  -- `source == &Boolean`
  abbrev is_boolean : DataType O → Bool
  is_boolean boolean = true
  is_boolean _ = false

  -- the arms of the `match` that have a guard, and what follows them
  guarded_cast : DataType O → DataType O → Option CastKind
  unfolding is_numeric large_to_utf8
  guarded_cast source target =
      if is_numeric source && is_numeric target
      then some lossy
      else if is_text target && (is_numeric source || is_boolean source)
      then some runtime_checked
      else if is_text source && (is_numeric target || is_boolean target)
      then some runtime_checked
      else large_to_utf8 source target

  -- `CastRegistry::classify`, after the test for equal types
  unfoldable pub classify_distinct : DataType O → DataType O → Option CastKind
  unfolding signed_rank unsigned_rank fixed_cast guarded_cast
  classify_distinct source target =
      if is_null source
      then some safe
      else first_of_two (widening (signed_rank source) (signed_rank target)) (
          first_of_two (widening (unsigned_rank source) (unsigned_rank target)) (
            first_of_two (widening (unsigned_rank source) (signed_rank target))
              (first_of_two (fixed_cast source target) (guarded_cast source target))))

  -- `CastRegistry::classify`
  unfoldable pub classify : Discrete O → DataType O → DataType O → Option CastKind
  classify d source target =
      if type_eq d source target then none else classify_distinct source target
