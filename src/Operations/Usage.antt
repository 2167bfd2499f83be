-- ===== src/Operations/Usage.antt =====
-- Which provided fields a plan of `plan_operations` uses.
use mathlib.Core.Option.{some-injective}
use fsspec_data.Prelude.{
  get_elem?-append, get_elem?-append_last, ℕ, String, ◌≡◌, ◌≢◌, ◌⊎◌, inl, inr, sym, ap, ◌∙◌, subst,
  true, false, not, Bool, Option, none, some, List, [], ◌∷◌, ◌++◌, length, get_elem?, set,
  position_from, arith, ltb, ◌==◌, Bool-cases, Option-cases, length-replicate, length-set,
  get_elem?-lt, lt-get_elem?, get_elem?-set_other,
}
use fsspec_data.Operations.Entries.{
  get_elem?-replicate, get_elem?-filter, get_elem?-map, position_from-none,
}
use fsspec_data.Errors.{ok, or_panic, bind_ok, ok-injective, or_panic-ok}
use fsspec_data.Arrow.{Arrow}
use fsspec_data.Policy.{SchemaPolicy}
use fsspec_data.HashMap.{get}
use fsspec_data.Fields.{FieldMapping, Descriptor}
use fsspec_data.Operations.{
  ProjectionOptions, Progress, is_projection, plan_mapping, plan_addition, is_dropped, renamed,
  source_names, matching, fill, fill_all, plan_operations, set_or_panic, check_used, start,
}
use fsspec_data.Operations.Planning.{plan_mapping-Mapped, plan_operations-Planned}

-- Some mapping takes the field.
pub record IsUsed (i : ℕ) (ms : List FieldMapping) : Type 0 where
  pub index : ℕ
  pub mapping : FieldMapping
  pub stands : get_elem? ms index ≡ some mapping
  pub takes : mapping.source_index ≡ i

module _ (A : Arrow) (provided : List (Descriptor A)) (policy : SchemaPolicy)
    (options : ProjectionOptions A) where
  abbrev sources : List (ℕ × String)
  sources = source_names A provided options

  -- What is marked as used is used.
  record IsMarked (st : Progress A) : Type 0 where
    pub as_long : length st.used ≡ length sources
    pub marked :
        (position : ℕ) (entry : ℕ × String)
        → get_elem? sources position ≡ some entry
        → get_elem? st.used position ≡ some true
        → IsUsed entry.0 st.mappings

  IsUsed-append : (i : ℕ) (ms rest : List FieldMapping) → IsUsed i ms → IsUsed i (ms ++ rest)
  IsUsed-append i ms rest u = record {
    index = u.index;
    mapping = u.mapping;
    stands = get_elem?-append ms rest u.index u.stands;
    takes = u.takes;
  }

  set_or_panic-set :
      (used used' : List Bool) (position : ℕ)
      → set_or_panic {X = A.external} used position true ≡ ok used'
      → set used position true ≡ used'
  set_or_panic-set used used' position h = elim (Bool-cases (ltb position (length used))) [
    | inl e ↦ ok-injective _ used' (rw e at h)
    | inr e ↦ cc (rw e at h)
  ]

  mark-IsMarked :
      (st : Progress A) (position : ℕ) (entry : ℕ × String) (m : FieldMapping)
      → IsMarked st
      → get_elem? sources position ≡ some entry
      → m.source_index ≡ entry.0
      → IsMarked (record st { used = set st.used position true; mappings = st.mappings ++ m ∷ [] })
  mark-IsMarked st position entry m w at takes = record {
    as_long = length-set st.used position true ∙ w.as_long;
    marked = λ p e stands set_true. elim (Bool-cases (position == p)) [
      | inl same ↦
          let equal : position ≡ p = ground arith in
          let entries : entry ≡ e =
            some-injective entry e (sym at ∙ ap (get_elem? sources) equal ∙ stands) in
          record {
            index = length st.mappings;
            mapping = m;
            stands = get_elem?-append_last st.mappings m;
            takes = takes ∙ ap (λ x. x.0) entries;
          }
      | inr other ↦
          let apart : position ≢ p = λ q. ground arith in
          IsUsed-append e.0 st.mappings (m ∷ []) (
            w.marked p e stands
              (sym (get_elem?-set_other st.used position p true apart) ∙ set_true))
    ];
  }

  fill-IsMarked :
      (st st' : Progress A) (n : ℕ) (t : Descriptor A) (positions : List ℕ)
      (default : Option A.Array)
      → IsMarked st
      → fill A provided sources policy options st n t positions default ≡ ok st'
      → IsMarked st'
  unfolding fill
  fill-IsMarked st st' n t [] (some v) w h =
      let (a, p, q) = bind_ok (plan_addition A n t v) _ h in
      subst IsMarked (ok-injective _ st' q) (record { as_long = w.as_long; marked = w.marked })
  fill-IsMarked st st' n t [] none w h = cc
  fill-IsMarked st st' n t (position ∷ []) none w h =
      let (used, in_range, h1) = bind_ok (set_or_panic st.used position true) _ h in
      let (entry, at, h2) = bind_ok (or_panic (get_elem? sources position)) _ h1 in
      let (source, at_source, h3) = bind_ok (or_panic (get_elem? provided entry.0)) _ h2 in
      let (m, planned, made) = bind_ok (plan_mapping A entry.0 n source t policy _) _ h3 in
      let f = plan_mapping-Mapped A entry.0 n source t policy _ m planned in
      subst IsMarked
        (ap (λ u. record st { used = u; mappings = st.mappings ++ m ∷ [] })
            (set_or_panic-set st.used used position in_range)
          ∙ ok-injective _ st' made)
        (mark-IsMarked st position entry m w (or_panic-ok _ at) f.at_source)
  fill-IsMarked st st' n t (position ∷ []) (some v) w h = cc
  fill-IsMarked st st' n t (position ∷ other ∷ rest) default w h = cc

  fill_all-IsMarked :
      (st st' : Progress A) (rest : List (ℕ × Descriptor A))
      → IsMarked st
      → fill_all A provided sources policy options st rest ≡ ok st'
      → IsMarked st'
  unfolding fill_all
  fill_all-IsMarked st st' [] w h = subst IsMarked (ok-injective st st' h) w
  fill_all-IsMarked st st' ((n, t) ∷ rest) w h =
      let (st1, p, q) =
        bind_ok
          (fill A provided sources policy options st n t (matching A sources t.name)
            (get t.name options.defaults))
          _ h in
      fill_all-IsMarked st1 st' rest (fill-IsMarked st st1 n t _ _ w p) q

  check_used-none :
      (used : List Bool)
      → check_used A provided sources policy options used ≡ ok tt
      → position_from not 0 used ≡ none
  unfolding check_used
  check_used-none used h = elim (Option-cases (position_from not 0 used)) [
    | inl e ↦ e
    | inr (position, e) ↦
        let (entry, p, h1) =
          bind_ok (or_panic (get_elem? sources position)) _ (rw (check_used, e) at h) in
        let (field, q, h2) = bind_ok (or_panic (get_elem? provided entry.0)) _ h1 in cc h2
  ]

  start-IsMarked : IsMarked (start A sources)
  start-IsMarked = record {
    as_long = length-replicate (length sources) false;
    marked =
        λ p e stands h. elim (absurd_true (get_elem?-replicate (length sources) false p h)) [ ];
  }
    where
      absurd_true : true ≡ false → ⊥
      absurd_true h = cc

  source_at :
      (i : ℕ) (f : Descriptor A)
      → get_elem? provided i ≡ some f
      → is_dropped A options f.name ≡ false
      → (position : ℕ) × (get_elem? sources position ≡ some (i, renamed A options f.name))
  unfolding source_names
  source_at i f h kept =
      let (position, at) =
        get_elem?-filter (λ e. not (is_dropped A options e.1.name)) 0 provided i h (ap not kept) in
      (
        position,
        get_elem?-map (λ e. (e.0, renamed A options e.1.name)) _ position at
            ∙ ap (λ k. some (k, renamed A options f.name)) (omega arith),
      )

  -- A plan with options under another policy than projection leaves no provided field out: each is
  -- dropped by name or the source of a mapping.
  pub plan_operations-IsUsed :
      (requested : List (Descriptor A)) {ms : List FieldMapping} {bs : _} (i : ℕ) (f : Descriptor A)
      → is_projection policy ≡ false
      → plan_operations A provided requested policy options ≡ ok (ms, bs)
      → get_elem? provided i ≡ some f
      → (is_dropped A options f.name ≡ true) ⊎ IsUsed i ms
  plan_operations-IsUsed requested {ms} {bs} i f other h at =
      elim (Bool-cases (is_dropped A options f.name)) [
        | inl e ↦ inl e
        | inr kept ↦
            let p = plan_operations-Planned A provided policy options requested ms bs h in
            let w = fill_all-IsMarked (start A sources) p.st _ start-IsMarked p.looped in
            let (position, stands) = source_at i f at kept in
            let (b, is) =
              get_elem?-lt p.st.used position
                (omega (arith, w.as_long, lt-get_elem? sources position stands)) in
            let marked =
              position_from-none p.st.used 0 position (check_used-none p.st.used (p.all_used other))
                is in
            inr (subst (IsUsed i) p.mappings_eq (w.marked position _ stands (is ∙ ap some marked)))
      ]
