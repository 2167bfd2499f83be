-- ===== src/Operations/Feeding.antt =====
-- The provided fields that have the name of a requested one, and what a round of `plan_operations` does
-- with them.
use mathlib.Core.Option.{some-injective}
use fsspec_data.Prelude.{
  ℕ, zero, suc, String, Bool, ◌≡◌, ◌≢◌, refl, ap, sym, ◌∙◌, true, not, Option, none, some, List, [],
  ◌∷◌, ◌+◌, length, map, get_elem?, filter_by, enumerate_from, str_eq, eq_iff, arith, ◌⊎◌, inl, inr,
  All, Sole, filter-All, All-filter, filter-Sole, Sole-filter, map-All, All-map, map-Sole, Sole-map,
  filtered-All, All-filtered, filtered-Sole, Sole-filtered, enumerate-All, All-enumerate,
  enumerate-Sole, Sole-enumerate, Sole-get_elem?,
}
use fsspec_data.Errors.{ok, bind_ok, or_panic, or_panic-ok}
use fsspec_data.Arrow.{Arrow}
use fsspec_data.Policy.{SchemaPolicy}
use fsspec_data.HashMap.{get}
use fsspec_data.Fields.{Descriptor}
use fsspec_data.Operations.{
  ProjectionOptions, Progress, plan_mapping, plan_addition, renamed, is_dropped, source_names,
  matching, fill, set_or_panic,
}
use fsspec_data.Operations.Entries.{get_elem?-filter}
use fsspec_data.Operations.Filling.{MayMap, MayAdd, plan_mapping-MayMap, plan_addition-MayAdd}

module _ (A : Arrow) (policy : SchemaPolicy) (options : ProjectionOptions A) where
  -- The provided field is not dropped, and has the name after the renames.
  abbrev pub Feeds : String → Descriptor A → Type 0
  Feeds name f = (not (is_dropped A options f.name) ≡ true) × (renamed A options f.name ≡ name)

  module _ (provided : List (Descriptor A)) where
    abbrev pub sources : List (ℕ × String)
    sources = source_names A provided options

    -- the entries of `sources` with the name, each with its position
    abbrev pub found : String → List (ℕ × (ℕ × String))
    found name = filter_by (λ e. str_eq e.1.1 name) (enumerate_from 0 sources)

    abbrev kept : ℕ × Descriptor A → Bool
    kept e = not (is_dropped A options e.1.name)

    abbrev entry_of : ℕ × Descriptor A → ℕ × String
    entry_of e = (e.0, renamed A options e.1.name)

    found-All : (name : String) → found name ≡ [] → All (λ f. ¬ Feeds name f) provided
    unfolding source_names
    found-All name h = enumerate-All (Feeds name) 0 provided (
        filtered-All kept (λ e. renamed A options e.1.name ≡ name) (enumerate_from 0 provided)
          (map-All (λ s. s.1 ≡ name) entry_of _
            (enumerate-All (λ s. s.1 ≡ name) 0 sources
              (filter-All (λ e. str_eq e.1.1 name) _ (λ e. eq_iff e.1.1 name)
                (enumerate_from 0 sources) h))))

    pub All-found : (name : String) → All (λ f. ¬ Feeds name f) provided → found name ≡ []
    unfolding source_names
    All-found name h =
        All-filter (λ e. str_eq e.1.1 name) _ (λ e. eq_iff e.1.1 name) (enumerate_from 0 sources)
          (All-enumerate (λ s. s.1 ≡ name) 0 sources
            (All-map (λ s. ¬ (s.1 ≡ name)) entry_of _
              (All-filtered kept (λ e. renamed A options e.1.name ≡ name)
                (enumerate_from 0 provided) (All-enumerate (Feeds name) 0 provided h))))

    -- The one entry found stands for the field.
    record StandsFor (name : String) (e : ℕ × (ℕ × String)) (f : Descriptor A) : Type 0 where
      pub one : Sole (Feeds name) f provided
      pub at_position : get_elem? sources e.0 ≡ some e.1
      pub at_source : get_elem? provided e.1.0 ≡ some f

    found-StandsFor :
        (name : String) (e : ℕ × (ℕ × String))
        → found name ≡ e ∷ []
        → (f : Descriptor A) × StandsFor name e f
    unfolding source_names
    found-StandsFor name e h =
        let numbered =
          filter-Sole (λ e. str_eq e.1.1 name) _ (λ e. eq_iff e.1.1 name) (enumerate_from 0 sources)
            e h in
        let (position, at, stands) = Sole-get_elem? (λ s. s.1 ≡ name) 0 sources e numbered in
        let (x, same, one) =
          map-Sole (λ s. s.1 ≡ name) entry_of _ e.1
            (enumerate-Sole (λ s. s.1 ≡ name) 0 sources e numbered) in
        let feeding =
          filtered-Sole kept (λ e. renamed A options e.1.name ≡ name) (enumerate_from 0 provided) x
            one in
        let (index, at_index, stands_at) = Sole-get_elem? (Feeds name) 0 provided x feeding in
        (
          x.1,
          record {
            one = enumerate-Sole (Feeds name) 0 provided x feeding;
            at_position = ap (get_elem? sources) (omega (arith, at)) ∙ stands;
            at_source =
                ap (get_elem? provided) {y = index}
                  (ap (λ s. s.0) (sym same) ∙ omega (arith, at_index))
                ∙ stands_at;
          },
        )

    pub Sole-found :
        (name : String) (f : Descriptor A)
        → Sole (Feeds name) f provided
        → (e : ℕ × (ℕ × String)) × (found name ≡ e ∷ [])
          × (get_elem? sources e.0 ≡ some e.1)
          × (get_elem? provided e.1.0 ≡ some f)
    unfolding source_names
    Sole-found name f h =
        let (i, feeding) = Sole-enumerate (Feeds name) 0 provided f h in
        let one =
          Sole-map (λ s. s.1 ≡ name) entry_of _ (i, f)
            (Sole-filtered kept (λ e. renamed A options e.1.name ≡ name) (enumerate_from 0 provided)
              (i, f) feeding) in
        let (j, numbered) = Sole-enumerate (λ s. s.1 ≡ name) 0 sources (entry_of (i, f)) one in
        let (index, at_index, stands_at) = Sole-get_elem? (Feeds name) 0 provided (i, f) feeding in
        let (position, at, stands) =
          Sole-get_elem? (λ s. s.1 ≡ name) 0 sources (j, entry_of (i, f)) numbered in
        (
          (j, entry_of (i, f)),
          Sole-filter (λ e. str_eq e.1.1 name) _ (λ e. eq_iff e.1.1 name) (enumerate_from 0 sources)
              (j, entry_of (i, f)) numbered,
          ap (get_elem? sources) (omega (arith, at)) ∙ stands,
          ap (get_elem? provided) (omega (arith, at_index)) ∙ stands_at,
        )

    -- The requested field can be filled: by the one provided field with its name, where it has no
    -- default; or by its default, where no provided field has its name.
    abbrev pub Fillable : Descriptor A → Type 0
    Fillable t =
        ((f : Descriptor A) × Sole (Feeds t.name) f provided
          × MayMap A policy options f t
          × (get t.name options.defaults ≡ none))
        ⊎ (All (λ f. ¬ Feeds t.name f) provided
            × ((v : A.Array) × (get t.name options.defaults ≡ some v)
                × MayAdd A policy options t v))

    map-none : (es : List (ℕ × (ℕ × String))) → map (λ e. e.0) es ≡ [] → es ≡ []
    map-none [] h = refl
    map-none (e ∷ es) h = cc

    map-one :
        (es : List (ℕ × (ℕ × String))) (position : ℕ)
        → map (λ e. e.0) es ≡ position ∷ []
        → (e : ℕ × (ℕ × String)) × (es ≡ e ∷ []) × (e.0 ≡ position)
    map-one [] position h = cc
    map-one (e ∷ []) position h = (e, refl, cc h)
    map-one (e ∷ d ∷ es) position h = cc

    pub fill-Fillable :
        (st st' : Progress A) (n : ℕ) (t : Descriptor A) (positions : List ℕ)
        (default : Option A.Array)
        → matching A sources t.name ≡ positions
        → get t.name options.defaults ≡ default
        → fill A provided sources policy options st n t positions default ≡ ok st'
        → Fillable t
    unfolding fill matching
    fill-Fillable st st' n t [] (some v) m d h =
        let (a, p, q) = bind_ok (plan_addition A n t v) _ h in
        inr (
          found-All t.name (map-none (found t.name) m),
          (v, d, plan_addition-MayAdd A policy options n t v a p),
        )
    fill-Fillable st st' n t [] none m d h = cc
    fill-Fillable st st' n t (position ∷ []) none m d h =
        let (used, in_range, h1) = bind_ok (set_or_panic st.used position true) _ h in
        let (entry, at, h2) = bind_ok (or_panic (get_elem? sources position)) _ h1 in
        let (source, at_source, h3) = bind_ok (or_panic (get_elem? provided entry.0)) _ h2 in
        let (mapping, planned, made) = bind_ok (plan_mapping A entry.0 n source t policy _) _ h3 in
        let (e, lone, same) = map-one (found t.name) position m in
        let (f, stands) = found-StandsFor t.name e lone in
        let entries : e.1 ≡ entry =
          some-injective e.1 entry
            (sym stands.at_position ∙ ap (get_elem? sources) same ∙ or_panic-ok _ at) in
        let sources_same : f ≡ source = some-injective f source (
          sym stands.at_source
          ∙ ap (λ e. get_elem? provided e.0) entries
          ∙ or_panic-ok _ at_source) in
        inl (
          f,
          stands.one,
          rw sources_same (plan_mapping-MayMap A policy options entry.0 n source t mapping planned),
          d,
        )
    fill-Fillable st st' n t (position ∷ []) (some v) m d h = cc
    fill-Fillable st st' n t (position ∷ other ∷ rest) default m d h = cc

    -- The entries of `sources` with the name are marked as used.
    abbrev pub Marked : Progress A → String → Type 0
    Marked st name =
        (position : ℕ) (entry : ℕ × String)
        → get_elem? sources position ≡ some entry
        → entry.1 ≡ name
        → get_elem? st.used position ≡ some true

    -- What a round leaves: the marks that there were, and those of the target's name.
    pub record Marks (st st' : Progress A) (name : String) : Type 0 where
      pub as_long : length st'.used ≡ length sources
      pub keeps : (other : String) → Marked st other → Marked st' other
      pub marked : Marked st' name

    pub found-at :
        (name : String) (e : ℕ × (ℕ × String)) (position : ℕ) (entry : ℕ × String)
        → found name ≡ e ∷ []
        → get_elem? sources position ≡ some entry
        → entry.1 ≡ name
        → e.0 ≡ position
    found-at name e position entry lone stands named =
        let (k, at) =
          get_elem?-filter (λ e. str_eq e.1.1 name) 0 sources position stands
            ((eq_iff entry.1 name).1 named) in
        first k (ap (λ es. get_elem? es k) (sym lone) ∙ at)
      where
        first : (k : ℕ) → get_elem? (e ∷ []) k ≡ some (0 + position, entry) → e.0 ≡ position
        first zero h = ap (λ e. e.0) (some-injective e _ h) ∙ omega arith
        first (suc k) h = cc

    pub none-at :
        (name : String) (position : ℕ) (entry : ℕ × String)
        → found name ≡ []
        → get_elem? sources position ≡ some entry
        → entry.1 ≢ name
    none-at name position entry empty stands named =
        let (k, at) =
          get_elem?-filter (λ e. str_eq e.1.1 name) 0 sources position stands
            ((eq_iff entry.1 name).1 named) in
        cc (ap (λ es. get_elem? es k) (sym empty) ∙ at)
