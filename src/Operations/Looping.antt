-- ===== src/Operations/Looping.antt =====
-- The loop of `plan_operations` over the requested fields: when it ends, and what it has marked as used.
use fsspec_data.Prelude.{
  ℕ, suc, String, Bool, ◌≡◌, ◌≢◌, refl, ap, sym, ◌∙◌, true, some, List, [], ◌∷◌, ◌++◌, length,
  get_elem?, set, ◌==◌, ltb, enumerate_from, arith, Bool-cases, inl, inr, All, length-set,
  get_elem?-set, get_elem?-set_other, lt-get_elem?,
}
use fsspec_data.Errors.{ok, bind_ok}
use fsspec_data.Arrow.{Arrow}
use fsspec_data.Policy.{SchemaPolicy}
use fsspec_data.HashMap.{get}
use fsspec_data.Fields.{Descriptor}
use fsspec_data.Operations.{ProjectionOptions, Progress, matching, fill, fill_all, set_or_panic}
use fsspec_data.Operations.Filling.{MayMap-Succeeds, MayAdd-Succeeds}
use fsspec_data.Operations.Feeding.{
  Fillable, fill-Fillable, Marked, Marks, sources, found-at, none-at, All-found, Sole-found,
}

module _ (A : Arrow) (policy : SchemaPolicy) (options : ProjectionOptions A)
    (provided : List (Descriptor A)) where
  abbrev pub feeding : List (ℕ × String)
  feeding = sources A policy options provided

  set_kept :
      (used : List Bool) (i j : ℕ)
      → get_elem? used i ≡ some true
      → get_elem? (set used j true) i ≡ some true
  set_kept used i j h = elim (Bool-cases (j == i)) [
    | inl e ↦
        let same : j ≡ i = ground arith in
        ap (get_elem? (set used j true)) (sym same)
        ∙ get_elem?-set used j true (rw same (lt-get_elem? used i h))
    | inr e ↦ let apart : j ≢ i = λ q. ground arith in get_elem?-set_other used j i true apart ∙ h
  ]

  Fillable-fill :
      (st : Progress A) (n : ℕ) (t : Descriptor A)
      → length st.used ≡ length feeding
      → Fillable A policy options provided t
      → (st' : Progress A) × (fill A provided feeding policy options st n t
            (matching A feeding t.name)
            (get t.name options.defaults)
          ≡ ok st')
        × Marks A policy options provided st st' t.name
  unfolding fill matching
  Fillable-fill st n t l (inl (f, one, may, d)) =
      let (e, lone, at, at_source) = Sole-found A policy options provided t.name f one in
      let (m, planned) = MayMap-Succeeds A policy options e.1.0 n f t may in
      let in_range : ltb e.0 (length st.used) ≡ true =
        ground (arith, l, lt-get_elem? feeding e.0 at) in
      (
        record st { used = set st.used e.0 true; mappings = st.mappings ++ m ∷ [] },
        rw (matching, lone, d, fill, set_or_panic, in_range, at, at_source, planned) refl,
        record {
          as_long = length-set st.used e.0 true ∙ l;
          keeps = λ other marked position entry stands named.
              set_kept st.used position e.0 (marked position entry stands named);
          marked = λ position entry stands named.
              ap (get_elem? (set st.used e.0 true))
                (sym (found-at A policy options provided t.name e position entry lone stands named))
              ∙ get_elem?-set st.used e.0 true (ground (arith, in_range));
        },
      )
  Fillable-fill st n t l (inr (nothing, (v, d, may))) =
      let (a, planned) = MayAdd-Succeeds A policy options n t v may in
      let empty = All-found A policy options provided t.name nothing in
      (
        record st { additions = st.additions ++ a ∷ [] },
        rw (matching, empty, d, fill, planned) refl,
        record {
          as_long = l;
          keeps = λ other marked. marked;
          marked = λ position entry stands named.
              absurd (none-at A policy options provided t.name position entry empty stands named);
        },
      )

  pub fill_all-Fillable :
      (n : ℕ) (r : List (Descriptor A)) (st st' : Progress A)
      → fill_all A provided feeding policy options st (enumerate_from n r) ≡ ok st'
      → All (Fillable A policy options provided) r
  unfolding fill_all
  fill_all-Fillable n [] st st' h = tt
  fill_all-Fillable n (t ∷ r) st st' h =
      let (st1, p, q) =
        bind_ok
          (fill A provided feeding policy options st n t (matching A feeding t.name)
            (get t.name options.defaults))
          _ h in
      (
        fill-Fillable A policy options provided st st1 n t _ _ refl refl p,
        fill_all-Fillable (suc n) r st1 st' q,
      )

  -- The loop ends with the marks that there were, and those of all the names.
  pub record Filled (st : Progress A) (n : ℕ) (r : List (Descriptor A)) : Type 0 where
    pub last : Progress A
    pub runs : fill_all A provided feeding policy options st (enumerate_from n r) ≡ ok last
    pub as_long : length last.used ≡ length feeding
    pub keeps :
        (name : String)
        → Marked A policy options provided st name
        → Marked A policy options provided last name
    pub marked : All (λ t. Marked A policy options provided last t.name) r

  pub Fillable-Filled :
      (n : ℕ) (r : List (Descriptor A)) (st : Progress A)
      → length st.used ≡ length feeding
      → All (Fillable A policy options provided) r
      → Filled st n r
  unfolding fill_all
  Fillable-Filled n [] st l h = record {
    last = st;
    runs = refl;
    as_long = l;
    keeps = λ name m. m;
    marked = tt;
  }
  Fillable-Filled n (t ∷ r) st l h =
      let (st1, ran, marks) = Fillable-fill st n t l h.0 in
      let rest = Fillable-Filled (suc n) r st1 marks.as_long h.1 in
      record {
        last = rest.last;
        runs = rw (fill_all, ran) rest.runs;
        as_long = rest.as_long;
        keeps = λ name m. rest.keeps name (marks.keeps name m);
        marked = (rest.keeps t.name marks.marked, rest.marked);
      }
