-- ===== src/Operations/Planning.antt =====
-- A plan of `plan_operations` fills the requested fields.
use mathlib.Core.List.{append_assoc, append-nil}
use mathlib.Core.Path.{subst₂}
use fsspec_data.Prelude.{
  ℕ, suc, String, ◌≡◌, ◌≢◌, ◌⊎◌, inl, inr, refl, sym, ap, ◌∙◌, true, false, not, ◌&&◌, Option, none,
  some, List, [], ◌∷◌, ◌++◌, get_elem?, enumerate_from, arith, All, All-get_elem?, if◌then◌else◌,
  Bool-cases,
}
use fsspec_data.Errors.{nullability, ok, guard, or_panic, bind_ok, ok-injective, or_panic-ok}
use fsspec_data.DataType.{type_eq_iff}
use fsspec_data.Arrow.{Arrow}
use fsspec_data.Cast.{CastKind}
use fsspec_data.Policy.{SchemaPolicy}
use fsspec_data.HashMap.{get}
use fsspec_data.Fields.{FieldMapping, Descriptor, narrows, classified, same_type}
use fsspec_data.Operations.{
  FieldAddition, ProjectionOptions, Progress, is_coerce, is_projection, check_cast, plan_mapping,
  plan_addition, source_names, matching, fill, fill_all, plan_operations, set_or_panic,
  check_operations, check_used, start, or_else, policy_limit,
}
use fsspec_data.Operations.Fills.{IsMapping, IsAddition, Fills, filled, mapped, added}
use fsspec_data.Operations.Sources.{IsMatch, IsSource, matching-IsMatch, source_names-IsSource}

module _ (A : Arrow) where
  -- What `plan_mapping` returns.
  pub record Mapped (si ti : ℕ) (s t : Descriptor A) (policy : SchemaPolicy) (m : FieldMapping)
      : Type 0 where
    pub at_source : m.source_index ≡ si
    pub at_target : m.target_index ≡ ti
    pub cast_eq : m.cast ≡ classified A s t
    pub uncast : m.cast ≡ none → s.data_type ≡ t.data_type
    pub nulls : m.check_nulls ≡ narrows s t
    pub narrowing : is_coerce policy ≡ false → m.check_nulls ≡ false

  check_cast-some :
      (s t : Descriptor A) (cast allowed : Option CastKind) {u : Unit {0}}
      → check_cast A s t cast allowed ≡ ok u
      → cast ≢ none
  unfolding check_cast
  check_cast-some s t none none h e = cc
  check_cast-some s t none (some max) h e = cc
  check_cast-some s t (some k) allowed h e = cc

  pub plan_mapping-Mapped :
      (si ti : ℕ) (s t : Descriptor A) (policy : SchemaPolicy) (o : Option CastKind)
      (m : FieldMapping)
      → plan_mapping A si ti s t policy o ≡ ok m
      → Mapped si ti s t policy m
  unfolding plan_mapping
  plan_mapping-Mapped si ti s t policy o m h =
      let allowed = or_else o (policy_limit policy) in
      let (u, cast_ok, h') =
        bind_ok (if same_type A s t then ok tt else check_cast A s t (classified A s t) allowed) _
          h in
      let (v, nulls_ok, made) =
        bind_ok (guard (not (narrows s t && not (is_coerce policy))) (nullability t.name)) _ h' in
      let e = ok-injective _ m made in
      record {
        at_source = ap (λ m. m.source_index) (sym e);
        at_target = ap (λ m. m.target_index) (sym e);
        cast_eq = ap (λ m. m.cast) (sym e);
        uncast = λ n. same cast_ok (ap (λ m. m.cast) e ∙ n);
        nulls = ap (λ m. m.check_nulls) (sym e);
        narrowing = λ c. ap (λ m. m.check_nulls) (sym e) ∙ wide nulls_ok c;
      }
    where
      wide :
          {u : Unit {0}}
          → guard {X = A.external}
              (not (narrows s t && not (is_coerce policy)))
              (nullability t.name)
            ≡ ok u
          → is_coerce policy ≡ false
          → narrows s t ≡ false
      wide g c = ground arith

      same :
          {u : Unit {0}}
          → (if same_type A s t
              then ok tt
              else check_cast A s t (classified A s t) (or_else o (policy_limit policy)))
            ≡ ok u
          → classified A s t ≡ none
          → s.data_type ≡ t.data_type
      same p n = elim (Bool-cases (same_type A s t)) [
        | inl e ↦ (type_eq_iff A.other_discrete s.data_type t.data_type).0 e
        | inr e ↦ absurd (check_cast-some s t _ _ (rw e at p) n)
      ]

  plan_addition-target :
      (n : ℕ) (t : Descriptor A) (v : A.Array) (a : FieldAddition A)
      → plan_addition A n t v ≡ ok a
      → a.target_index ≡ n
  unfolding plan_addition
  plan_addition-target n t v a h = ground arith

  module _ (provided : List (Descriptor A)) (policy : SchemaPolicy)
      (options : ProjectionOptions A) where
    abbrev sources : List (ℕ × String)
    sources = source_names A provided options

    -- One more mapping, or one more addition.
    abbrev Advances : ℕ → Descriptor A → Progress A → Progress A → Type 0
    Advances n t st st' =
        ((m : FieldMapping) × IsMapping A provided policy options n t m
          × (st'.mappings ≡ st.mappings ++ m ∷ [])
          × (st'.additions ≡ st.additions))
        ⊎ ((a : FieldAddition A) × IsAddition A provided policy options n t a
            × (st'.mappings ≡ st.mappings)
            × (st'.additions ≡ st.additions ++ a ∷ []))

    source-IsMapping :
        (n : ℕ) (t : Descriptor A) (position : ℕ) (entry : ℕ × String) (source : Descriptor A)
        (m : FieldMapping)
        → IsMatch sources t.name position
        → get_elem? sources position ≡ some entry
        → get_elem? provided entry.0 ≡ some source
        → plan_mapping A entry.0 n source t policy (get t.name options.casts) ≡ ok m
        → IsMapping A provided policy options n t m
    source-IsMapping n t position entry source m match at at_source planned =
        let s =
          All-get_elem? (IsSource A provided options) sources position
            (source_names-IsSource A provided options) at in
        let f = plan_mapping-Mapped entry.0 n source t policy _ m planned in
        let same : s.field ≡ source = ground (arith, s.stands, at_source) in
        let named : entry.1 ≡ t.name = ground (arith, match.stands, match.named, at) in
        record {
          source = source;
          at_source = rw f.at_source at_source;
          at_target = f.at_target;
          named = rw (← same) (s.named ∙ named);
          kept = rw (← same) s.kept;
          cast_eq = f.cast_eq;
          uncast = f.uncast;
          nulls = f.nulls;
          narrowing = f.narrowing;
        }

    fill-Advances :
        (st st' : Progress A) (n : ℕ) (t : Descriptor A) (positions : List ℕ)
        (default : Option A.Array)
        → All (IsMatch sources t.name) positions
        → get t.name options.defaults ≡ default
        → fill A provided sources policy options st n t positions default ≡ ok st'
        → Advances n t st st'
    unfolding fill
    fill-Advances st st' n t [] (some v) found d h =
        let (a, p, q) = bind_ok (plan_addition A n t v) _ h in
        inr (
          a,
          record {
            at_target = plan_addition-target n t v a p;
            default = v;
            from_default = d;
            planned = p;
          },
          ground arith,
          ground arith,
        )
    fill-Advances st st' n t [] none found d h = cc
    fill-Advances st st' n t (position ∷ []) none found d h =
        let (used, in_range, h1) = bind_ok (set_or_panic st.used position true) _ h in
        let (entry, at, h2) = bind_ok (or_panic (get_elem? sources position)) _ h1 in
        let (source, at_source, h3) = bind_ok (or_panic (get_elem? provided entry.0)) _ h2 in
        let (m, planned, made) = bind_ok (plan_mapping A entry.0 n source t policy _) _ h3 in
        let e = ok-injective _ st' made in
        inl (
          m,
          source-IsMapping n t position entry source m found.0 (or_panic-ok _ at)
              (or_panic-ok _ at_source) planned,
          ap (λ (st : Progress A). st.mappings) (sym e),
          ap (λ (st : Progress A). st.additions) (sym e),
        )
    fill-Advances st st' n t (position ∷ []) (some v) found d h = cc
    fill-Advances st st' n t (position ∷ other ∷ rest) default found d h = cc

    -- What the loop adds to its state.
    abbrev Extends : ℕ → List (Descriptor A) → Progress A → Progress A → Type 0
    Extends n r st st' =
        (ms : List FieldMapping) × (bs : List (FieldAddition A)) × Fills A provided policy options n
          r ms bs
        × (st'.mappings ≡ st.mappings ++ ms)
        × (st'.additions ≡ st.additions ++ bs)

    extend :
        (n : ℕ) (t : Descriptor A) (r : List (Descriptor A)) (st st1 st' : Progress A)
        → Advances n t st st1
        → Extends (suc n) r st1 st'
        → Extends n (t ∷ r) st st'
    extend n t r st st1 st' (inl (m, p, e, f)) (ms, bs, fills, g, h) = (
      m ∷ ms,
      bs,
      mapped p fills,
      g ∙ ap (λ l. l ++ ms) e ∙ append_assoc st.mappings (m ∷ []) ms,
      h ∙ ap (λ l. l ++ bs) f,
    )
    extend n t r st st1 st' (inr (a, p, e, f)) (ms, bs, fills, g, h) = (
      ms,
      a ∷ bs,
      added p fills,
      g ∙ ap (λ l. l ++ ms) e,
      h ∙ ap (λ l. l ++ bs) f ∙ append_assoc st.additions (a ∷ []) bs,
    )

    fill_all-Extends :
        (n : ℕ) (r : List (Descriptor A)) (st st' : Progress A)
        → fill_all A provided sources policy options st (enumerate_from n r) ≡ ok st'
        → Extends n r st st'
    unfolding fill_all
    fill_all-Extends n [] st st' h =
        let e = ok-injective st st' h in
        (
          [],
          [],
          filled,
          ap (λ (st : Progress A). st.mappings) (sym e) ∙ sym (append-nil st.mappings),
          ap (λ (st : Progress A). st.additions) (sym e) ∙ sym (append-nil st.additions),
        )
    fill_all-Extends n (t ∷ r) st st' h =
        let (st1, p, q) =
          bind_ok
            (fill A provided sources policy options st n t (matching A sources t.name)
              (get t.name options.defaults))
            _ h in
        extend n t r st st1 st'
          (fill-Advances st st1 n t _ _ (matching-IsMatch A sources t.name) refl p)
          (fill_all-Extends (suc n) r st1 st' q)

    -- What a successful `plan_operations` went through.
    pub record Planned (requested : List (Descriptor A)) (ms : List FieldMapping)
        (bs : List (FieldAddition A)) : Type 0 where
      pub st : Progress A
      pub checked : check_operations A provided requested policy options ≡ ok tt
      pub looped :
          fill_all A provided sources policy options (start A sources) (enumerate_from 0 requested)
          ≡ ok st
      pub all_used :
          is_projection policy ≡ false
          → check_used A provided sources policy options st.used ≡ ok tt
      pub mappings_eq : st.mappings ≡ ms
      pub additions_eq : st.additions ≡ bs

    pub plan_operations-Planned :
        (requested : List (Descriptor A)) (ms : List FieldMapping) (bs : List (FieldAddition A))
        → plan_operations A provided requested policy options ≡ ok (ms, bs)
        → Planned requested ms bs
    unfolding plan_operations
    plan_operations-Planned requested ms bs h =
        let (u, c, h1) = bind_ok (check_operations A provided requested policy options) _ h in
        let (st, looped, h2) =
          bind_ok
            (fill_all A provided sources policy options (start A sources)
              (enumerate_from 0 requested))
            _ h1 in
        let (v, all_used, made) =
          bind_ok
            (if is_projection policy
              then ok tt
              else check_used A provided sources policy options st.used)
            _ h2 in
        let e = ok-injective _ (ms, bs) made in
        record {
          st = st;
          checked = c;
          looped = looped;
          all_used = λ e. rw e at all_used;
          mappings_eq = ap (λ p. p.0) e;
          additions_eq = ap (λ p. p.1) e;
        }

    -- A plan with options fills every requested field once.
    pub plan_operations-Fills :
        (requested : List (Descriptor A)) (ms : List FieldMapping) (bs : List (FieldAddition A))
        → plan_operations A provided requested policy options ≡ ok (ms, bs)
        → Fills A provided policy options 0 requested ms bs
    plan_operations-Fills requested ms bs h =
        let p = plan_operations-Planned requested ms bs h in
        let (ms', bs', fills, e, f) =
          fill_all-Extends 0 requested (start A sources) p.st p.looped in
        subst₂ (Fills A provided policy options 0 requested) (sym e ∙ p.mappings_eq)
          (sym f ∙ p.additions_eq) fills
