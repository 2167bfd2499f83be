-- ===== src/Plan/Total/Operations.antt =====
-- `plan_operations` does not panic.
use fsspec_data.Prelude.{
  All-mono, ℕ, String, ◌++◌, ◌<◌, ◌≡◌, ◌∙◌, Bool, inl, inr, Option-cases, true, false, not, ltb,
  Option, none, some, List, [], ◌∷◌, length, set, length-set, length-replicate, get_elem?,
  get_elem?-lt, lt-get_elem?, position_from, enumerate_from, arith, All, All-get_elem?,
  if◌then◌else◌,
}
use fsspec_data.Errors.{Result, ok, ◌>>=◌}
use fsspec_data.Arrow.{Arrow}
use fsspec_data.Policy.{SchemaPolicy}
use fsspec_data.HashMap.{get}
use fsspec_data.Fields.{Descriptor, FieldMapping}
use fsspec_data.Operations.{
  FieldAddition, ProjectionOptions, is_projection, plan_mapping, source_names, matching, Progress,
  fill, fill_all, check_used, check_operations, start, plan_operations,
}
use fsspec_data.Operations.Sources.{IsSource, IsMatch, matching-IsMatch, source_names-IsSource}
use fsspec_data.Plan.Proper.{Always, Proper, Proper-bind, if-Proper, position_from-lt}
use fsspec_data.Plan.Total.Checks.{mapping-Proper, addition-Proper, operations-Proper}

module _ (A : Arrow) where
  module _ (provided : List (Descriptor A)) (policy : SchemaPolicy)
      (options : ProjectionOptions A) where
    abbrev sources : List (ℕ × String)
    sources = source_names A provided options

    -- There is a flag for each source.
    abbrev Sized : Progress A → Type 0
    Sized st = length st.used ≡ length sources

    source_at :
        (position : ℕ)
        → position < length sources
        → (entry : ℕ × String) × (field : Descriptor A) × (get_elem? sources position ≡ some entry)
          × (get_elem? provided entry.0 ≡ some field)
    source_at position h =
        let (entry, e) = get_elem?-lt sources position h in
        let s =
          All-get_elem? (IsSource A provided options) sources position
            (source_names-IsSource A provided options) e in
        (entry, s.field, e, s.stands)

    fill-Proper :
        (st : Progress A) (i : ℕ) (t : Descriptor A) (positions : List ℕ) (value : Option A.Array)
        → Sized st
        → All (λ p. p < length sources) positions
        → Proper Sized (fill A provided sources policy options st i t positions value)
    unfolding fill
    fill-Proper st i t [] (some value) z h = ground (arith, addition-Proper A i t value)
    fill-Proper st i t [] none z h = tt
    fill-Proper st i t (p ∷ []) (some value) z h = tt
    fill-Proper st i t (p ∷ q ∷ ps) (some value) z h = tt
    fill-Proper st i t (p ∷ q ∷ ps) none z h = tt
    fill-Proper st i t (p ∷ []) none z h =
        let (entry, field, e, f) = source_at p h.0 in
        let inside : ltb p (length st.used) ≡ true = ground (arith, z, h.0) in
        simp (inside, e, f)
          (Proper-bind Always Sized
            (plan_mapping A entry.0 i field t policy (get t.name options.casts))
            (λ mapping.
              ok (record st { used = set st.used p true; mappings = st.mappings ++ mapping ∷ [] }))
            (mapping-Proper A entry.0 i field t policy (get t.name options.casts))
            λ mapping _. length-set st.used p true ∙ z)

    inside-matching : (name : String) → All (λ p. p < length sources) (matching A sources name)
    inside-matching name =
        All-mono (IsMatch sources name) (λ p. p < length sources)
          (λ p m. lt-get_elem? sources p m.stands) (matching A sources name)
          (matching-IsMatch A sources name)

    fill_all-Proper :
        (st : Progress A) (targets : List (ℕ × Descriptor A))
        → Sized st
        → Proper Sized (fill_all A provided sources policy options st targets)
    unfolding fill_all
    fill_all-Proper st [] z = z
    fill_all-Proper st ((i, t) ∷ targets) z =
        Proper-bind Sized Sized
          (fill A provided sources policy options st i t (matching A sources t.name)
            (get t.name options.defaults))
          (λ st'. fill_all A provided sources policy options st' targets)
          (fill-Proper st i t (matching A sources t.name) (get t.name options.defaults) z
            (inside-matching t.name))
          λ st' z'. fill_all-Proper st' targets z'

    used-Proper :
        (used : List Bool)
        → length used ≡ length sources
        → Proper Always (check_used A provided sources policy options used)
    unfolding check_used
    used-Proper used z = elim (Option-cases (position_from not 0 used)) [
      | inl e ↦ rw (check_used, e) tt
      | inr (p, e) ↦
          let (entry, field, q, f) =
            source_at p (omega (arith, position_from-lt not 0 used e, z)) in
          rw (check_used, e, q, f) tt
    ]

    abbrev finished : Progress A → Result A.external (List FieldMapping × List (FieldAddition A))
    finished st =
        (if is_projection policy
          then ok tt
          else check_used A provided sources policy options st.used)
        >>= λ u. ok (st.mappings, st.additions)

    finished-Proper : (st : Progress A) → Sized st → Proper Always (finished st)
    finished-Proper st z =
        Proper-bind Always Always
          (if is_projection policy
            then ok tt
            else check_used A provided sources policy options st.used)
          (λ u. ok (st.mappings, st.additions))
          (if-Proper Always (is_projection policy) (ok tt)
            (check_used A provided sources policy options st.used) tt (used-Proper st.used z))
          λ u _. tt

    pub plan_operations-Proper :
        (requested : List (Descriptor A))
        → Proper Always (plan_operations A provided requested policy options)
    unfolding plan_operations
    plan_operations-Proper requested =
        Proper-bind Always Always (check_operations A provided requested policy options)
          (λ u.
            fill_all A provided sources policy options (start A sources)
              (enumerate_from 0 requested)
            >>= finished)
          (operations-Proper A provided requested policy options)
          λ u _.
            Proper-bind Sized Always
              (fill_all A provided sources policy options (start A sources)
                (enumerate_from 0 requested))
              finished
              (fill_all-Proper (start A sources) (enumerate_from 0 requested)
                (length-replicate (length sources) false))
              finished-Proper
