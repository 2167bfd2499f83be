-- ===== src/Cast/Names.antt =====
-- rust/src/plan.rs: the names of the cast kinds.
use fsspec_data.Prelude.{String, ◌≡◌, ◌↔◌, refl, arith, eq_iff}
use fsspec_data.Errors.{Externals, ok}
use fsspec_data.Cast.{CastKind, safe, parse, as_str}

pub parse-as_str : {X : Externals} (k : CastKind) → parse {X = X} (as_str k) ≡ ok k
unfolding parse as_str
parse-as_str safe = refl
parse-as_str _ = refl

as_str-parse :
    {X : Externals} (value : String) (k : CastKind) → parse {X = X} value ≡ ok k → value ≡ as_str k
unfolding parse as_str
as_str-parse value k h =
    ground (arith, eq_iff value "safe", eq_iff value "lossy", eq_iff value "runtime_checked")

-- `parse` accepts exactly the names that `as_str` gives, each as the kind that it names.
pub kind_parse_iff :
    {X : Externals} (value : String) (k : CastKind)
    → (parse {X = X} value ≡ ok k) ↔ (value ≡ as_str k)
kind_parse_iff value k = (as_str-parse value k, λ e. rw e (parse-as_str k))
