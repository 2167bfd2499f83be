-- ===== src/Examples/Casts.antt =====
-- Tests of the cast registry and of the names, and their theorems at concrete inputs.
use fsspec_data.Prelude.{◌≡◌, ◌≢◌, ◌⊎◌, ◌↔◌, refl, none, some}
use fsspec_data.Errors.{ok}
use fsspec_data.DataType.{
  DataType, null, boolean, int8, int32, int64, uint8, uint32, utf8, float32, type_eq,
}
use fsspec_data.Cast
use fsspec_data.Cast.{CastKind, safe, lossy, runtime_checked, classify, classify_distinct}
use fsspec_data.Cast.Order.{safe_trans, safe_antisymm, classify_converse}
use fsspec_data.Cast.Integers.{ℤ, Holds, integer_cast}
use fsspec_data.Cast.Names.{kind_parse_iff}
use fsspec_data.Format
use fsspec_data.Format.{format_parse_iff}
use fsspec_data.Policy
use fsspec_data.Policy.{policy_parse_iff}
use fsspec_data.Examples.Toy.{Other, other_discrete, externals}

int8-int64 : classify other_discrete int8 int64 ≡ some safe
unfolding classify classify_distinct type_eq
int8-int64 = refl

int64-int8 : classify other_discrete int64 int8 ≡ some lossy
unfolding classify classify_distinct type_eq
int64-int8 = refl

uint8-int32 : classify other_discrete uint8 int32 ≡ some safe
unfolding classify classify_distinct type_eq
uint8-int32 = refl

uint32-int32 : classify other_discrete uint32 int32 ≡ some lossy
unfolding classify classify_distinct type_eq
uint32-int32 = refl

int32-int64 : classify other_discrete int32 int64 ≡ some safe
unfolding classify classify_distinct type_eq
int32-int64 = refl

utf8-boolean : classify other_discrete utf8 boolean ≡ some runtime_checked
unfolding classify classify_distinct type_eq
utf8-boolean = refl

boolean-float32 : classify other_discrete boolean float32 ≡ none
unfolding classify classify_distinct type_eq
boolean-float32 = refl

utf8-ne-null : ◌≢◌ {A = DataType Other} utf8 null
utf8-ne-null e = cc

uint8-ne-int8 : ◌≢◌ {A = DataType Other} uint8 int8
uint8-ne-int8 e = cc

safe_trans_example : classify other_discrete uint8 int64 ≡ some safe
safe_trans_example = safe_trans other_discrete uint8 int32 int64 uint8-int32 int32-int64

safe_antisymm_example : classify other_discrete int64 int8 ≢ some safe
safe_antisymm_example = safe_antisymm other_discrete int8 int64 int8-int64

classify_converse_example : classify other_discrete boolean utf8 ≢ none
classify_converse_example =
    classify_converse other_discrete utf8 boolean runtime_checked utf8-ne-null utf8-boolean

integer_cast_example :
    ((classify other_discrete uint8 int8 ≡ some safe)
      × ((v : ℤ) → Holds {O = Other} uint8 v → Holds {O = Other} int8 v))
    ⊎ ((classify other_discrete uint8 int8 ≡ some lossy)
        × ((v : ℤ) × Holds {O = Other} uint8 v × ¬ Holds {O = Other} int8 v))
integer_cast_example = integer_cast other_discrete uint8 int8 refl refl uint8-ne-int8

kind_parse_iff_example :
    (Cast.parse {X = externals} "lossy" ≡ ok lossy) ↔ ("lossy" ≡ Cast.as_str lossy)
kind_parse_iff_example = kind_parse_iff "lossy" lossy

format_parse_iff_example :
    (Format.parse {X = externals} "json" ≡ ok Format.json_lines)
    ↔ ("json" ≡ Format.as_str Format.json_lines)
format_parse_iff_example = format_parse_iff "json" Format.json_lines

policy_parse_iff_example :
    (Policy.parse {X = externals} "exact" ≡ ok Policy.exact)
    ↔ ("exact" ≡ Policy.as_str Policy.exact)
policy_parse_iff_example = policy_parse_iff "exact" Policy.exact
