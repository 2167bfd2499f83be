-- ===== src/Operations/Sources.antt =====
-- What the searches of `plan_operations` find.
use fsspec_data.Prelude.{
  ℕ, String, ◌≡◌, refl, ap, ◌∙◌, false, some, List, get_elem?, arith, All, All-map, All-mono,
  Selected, All-filter-enumerate, eq_iff, not, str_eq,
}
use fsspec_data.Arrow.{Arrow}
use fsspec_data.Fields.{Descriptor}
use fsspec_data.Operations.{ProjectionOptions, renamed, is_dropped, source_names, matching}

-- The entry of `sources` at a position that `matching` returned.
pub record IsMatch (sources : List (ℕ × String)) (name : String) (position : ℕ) : Type 0 where
  pub entry : ℕ × String
  pub stands : get_elem? sources position ≡ some entry
  pub named : entry.1 ≡ name

module _ (A : Arrow) where
  -- The provided field that an entry of `sources` stands for.
  pub record IsSource (provided : List (Descriptor A)) (options : ProjectionOptions A)
      (entry : ℕ × String) : Type 0 where
    pub field : Descriptor A
    pub stands : get_elem? provided entry.0 ≡ some field
    pub named : renamed A options field.name ≡ entry.1
    pub kept : is_dropped A options field.name ≡ false

  pub matching-IsMatch :
      (sources : List (ℕ × String)) (name : String)
      → All (IsMatch sources name) (matching A sources name)
  unfolding matching
  matching-IsMatch sources name =
      All-map _ _ _ (All-mono _ _ found _ (All-filter-enumerate _ 0 sources))
    where
      found :
          (e : ℕ × (ℕ × String))
          → Selected (λ e. str_eq e.1.1 name) 0 sources e
          → IsMatch sources name e.0
      found e s = record {
        entry = e.1;
        stands = ap (get_elem? sources) (omega (arith, s.counts)) ∙ s.stands;
        named = (eq_iff e.1.1 name).0 s.kept;
      }

  pub source_names-IsSource :
      (provided : List (Descriptor A)) (options : ProjectionOptions A)
      → All (IsSource provided options) (source_names A provided options)
  unfolding source_names
  source_names-IsSource provided options =
      All-map _ _ _ (All-mono _ _ found _ (All-filter-enumerate _ 0 provided))
    where
      found :
          (e : ℕ × Descriptor A)
          → Selected (λ e. not (is_dropped A options e.1.name)) 0 provided e
          → IsSource provided options (e.0, renamed A options e.1.name)
      found e s = record {
        field = e.1;
        stands = ap (get_elem? provided) (omega (arith, s.counts)) ∙ s.stands;
        named = refl;
        kept = ground (arith, s.kept);
      }
