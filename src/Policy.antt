-- ===== src/Policy.antt =====
-- rust/src/plan.rs: `SchemaPolicy` and its names.
use fsspec_data.Prelude.{String, ◌≡◌, ◌↔◌, refl, arith, str_eq, eq_iff, if◌then◌else◌}
use fsspec_data.Errors.{Externals, Result, ok, err, unsupported_policy}

pub data SchemaPolicy : Type 0 where
  exact projection compatible coerce : SchemaPolicy

-- `SchemaPolicy::as_str`
unfoldable pub as_str : SchemaPolicy → String
as_str exact = "exact"
as_str projection = "projection"
as_str compatible = "compatible"
as_str coerce = "coerce"

-- `SchemaPolicy::parse`
unfoldable pub parse : {X : Externals} → String → Result X SchemaPolicy
parse value =
    if str_eq value "exact"
    then ok exact
    else if str_eq value "projection"
    then ok projection
    else if str_eq value "compatible"
    then ok compatible
    else if str_eq value "coerce"
    then ok coerce
    else err (unsupported_policy value)

pub parse-as_str : {X : Externals} (p : SchemaPolicy) → parse {X = X} (as_str p) ≡ ok p
unfolding parse as_str
parse-as_str exact = refl
parse-as_str _ = refl

as_str-parse :
    {X : Externals} (value : String) (p : SchemaPolicy)
    → parse {X = X} value ≡ ok p
    → value ≡ as_str p
unfolding parse as_str
as_str-parse value p h = ground (
  arith,
  eq_iff value "exact",
  eq_iff value "projection",
  eq_iff value "compatible",
  eq_iff value "coerce",
)

-- `parse` accepts exactly the names that `as_str` gives, each as the policy that it names.
pub policy_parse_iff :
    {X : Externals} (value : String) (p : SchemaPolicy)
    → (parse {X = X} value ≡ ok p) ↔ (value ≡ as_str p)
policy_parse_iff value p = (as_str-parse value p, λ e. rw e (parse-as_str p))
