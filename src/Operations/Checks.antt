-- ===== src/Operations/Checks.antt =====
-- Which options the checks at the start of `plan_operations` let pass.
use fsspec_data.Prelude.{
  String, Bool, ◌≡◌, ◌≢◌, ◌↔◌, refl, ap, true, false, not, none, List, [], ◌∷◌, ◌++◌, length, ◌||◌,
  All-mono, Option-cases, filter_by, find_by, str_eq, eq_iff, arith, Bool-cases, inl, inr, All, Any,
  Sole, filter-Sole, Sole-filter,
}
use fsspec_data.Errors.{ok, bind_ok, guard-ok, exact_operations}
use fsspec_data.Arrow.{Arrow}
use fsspec_data.Policy.{SchemaPolicy, exact, projection, compatible, coerce}
use fsspec_data.HashMap.{get, keys, values, contains_key}
use fsspec_data.Fields.{Descriptor}
use fsspec_data.Operations.{
  ProjectionOptions, is_exact, occurs_once, check_provided, check_conflicts, is_requested,
  check_requested, check_operations,
}

find_by-All :
    {B : Type 0} (test : B → Bool) (xs : List B)
    → find_by test xs ≡ none
    → All (λ x. test x ≡ false) xs
find_by-All test [] h = tt
find_by-All test (x ∷ xs) h = elim (Bool-cases (test x)) [
  | inl e ↦ cc (rw e at h)
  | inr e ↦ (e, find_by-All test xs (rw e at h))
]

All-find_by :
    {B : Type 0} (test : B → Bool) (xs : List B)
    → All (λ x. test x ≡ false) xs
    → find_by test xs ≡ none
All-find_by test [] h = refl
All-find_by test (x ∷ xs) h = rw h.0 (All-find_by test xs h.1)

is_exact_iff : (policy : SchemaPolicy) → (is_exact policy ≡ false) ↔ (policy ≢ exact)
is_exact_iff exact = (λ h. cc, λ h. absurd (h refl))
is_exact_iff projection = (λ h e. cc, λ h. refl)
is_exact_iff compatible = (λ h e. cc, λ h. refl)
is_exact_iff coerce = (λ h e. cc, λ h. refl)

module _ (A : Arrow) where
  -- The name is that of exactly one field.
  abbrev pub NamesOne : List (Descriptor A) → String → Type 0
  NamesOne fields name = (f : Descriptor A) × Sole (λ u. u.name ≡ name) f fields

  -- The name is that of a field.
  abbrev pub Names : List (Descriptor A) → String → Type 0
  Names fields name = Any (λ u. u.name ≡ name) fields

  -- The options are for the schemas: a policy other than exact; each renamed and each dropped name is
  -- that of one provided field, and no name is both; what is renamed to, filled or cast is requested.
  pub record Suits (provided requested : List (Descriptor A)) (policy : SchemaPolicy)
      (options : ProjectionOptions A) : Type 0 where
    pub not_exact : policy ≢ exact
    pub provides : All (NamesOne provided) (keys options.renames ++ options.drop)
    pub apart : All (λ name. get name options.renames ≡ none) options.drop
    pub renames_to : All (Names requested) (values options.renames)
    pub fills : All (Names requested) (keys options.defaults)
    pub casts_to : All (Names requested) (keys options.casts)

  occurs_once-length :
      (name : String) (fields : List (Descriptor A))
      → occurs_once A name (length fields) ≡ ok tt
      → (f : Descriptor A) × (fields ≡ f ∷ [])
  occurs_once-length name [] h = cc
  occurs_once-length name (f ∷ []) h = (f, refl)
  occurs_once-length name (f ∷ g ∷ fields) h = cc

  provided-All :
      (fields : List (Descriptor A)) (names : List String)
      → check_provided A fields names ≡ ok tt
      → All (NamesOne fields) names
  unfolding check_provided
  provided-All fields [] h = tt
  provided-All fields (name ∷ names) h =
      let (u, once, rest) =
        bind_ok (occurs_once A name (length (filter_by (λ f. str_eq f.name name) fields))) _ h in
      let (f, e) = occurs_once-length name (filter_by (λ f. str_eq f.name name) fields) once in
      (
        (f, filter-Sole (λ f. str_eq f.name name) _ (λ f. eq_iff f.name name) fields f e),
        provided-All fields names rest,
      )

  All-provided :
      (fields : List (Descriptor A)) (names : List String)
      → All (NamesOne fields) names
      → check_provided A fields names ≡ ok tt
  unfolding check_provided
  All-provided fields [] h = refl
  All-provided fields (name ∷ names) h =
      rw (Sole-filter (λ f. str_eq f.name name) _ (λ f. eq_iff f.name name) fields h.0.0 h.0.1)
        (All-provided fields names h.1)

  is_requested_iff :
      (fields : List (Descriptor A)) (name : String)
      → (is_requested A fields name ≡ true) ↔ Names fields name
  is_requested_iff [] name = (λ h. cc, λ h. elim h [ ])
  is_requested_iff (f ∷ fields) name = (
    λ h. elim (Bool-cases (str_eq f.name name)) [
      | inl e ↦ inl ((eq_iff f.name name).0 e)
      | inr e ↦ inr ((is_requested_iff fields name).0 (rw e at h))
    ],
    λ h. elim h [
      | inl e ↦ rw ((eq_iff f.name name).1 e) refl
      | inr e ↦ or_true (str_eq f.name name) ((is_requested_iff fields name).1 e)
    ],
  )
    where
      or_true : (b : Bool) {c : Bool} → c ≡ true → (b || c) ≡ true
      or_true b h = ground arith

  abbrev is_unknown : List (Descriptor A) → String → Bool
  is_unknown fields name = not (is_requested A fields name)

  requested-All :
      (fields : List (Descriptor A)) (operation : String) (names : List String)
      → check_requested A fields operation names ≡ ok tt
      → All (Names fields) names
  unfolding check_requested
  requested-All fields operation names h = elim (Option-cases (find_by (is_unknown fields) names)) [
    | inl e ↦
        All-mono _ _ (λ name known. (is_requested_iff fields name).0 (ground (arith, known))) names
          (find_by-All (is_unknown fields) names e)
    | inr (name, e) ↦ cc (rw (check_requested, e) at h)
  ]

  All-requested :
      (fields : List (Descriptor A)) (operation : String) (names : List String)
      → All (Names fields) names
      → check_requested A fields operation names ≡ ok tt
  unfolding check_requested
  All-requested fields operation names h =
      rw
        (
          check_requested,
          All-find_by (is_unknown fields) names (
              All-mono _ _ (λ name known. ap not ((is_requested_iff fields name).1 known)) names h),
        )
        refl

  abbrev Apart : ProjectionOptions A → List String → Type 0
  Apart options names = All (λ name. get name options.renames ≡ none) names

  contains_key-none :
      (options : ProjectionOptions A) (name : String)
      → contains_key name options.renames ≡ false
      → get name options.renames ≡ none
  contains_key-none options name h = elim (Option-cases (get name options.renames)) [
    | inl e ↦ e
    | inr (v, e) ↦ cc (rw (contains_key, e) at h)
  ]

  none-contains_key :
      (options : ProjectionOptions A) (name : String)
      → get name options.renames ≡ none
      → contains_key name options.renames ≡ false
  none-contains_key options name e = rw (contains_key, e) refl

  conflicts-Apart :
      (options : ProjectionOptions A)
      → check_conflicts A options ≡ ok tt
      → Apart options options.drop
  unfolding check_conflicts
  conflicts-Apart options h =
      elim (Option-cases (find_by (λ name. contains_key name options.renames) options.drop)) [
        | inl e ↦
            All-mono _ _ (contains_key-none options) options.drop (find_by-All _ options.drop e)
        | inr (name, e) ↦ cc (rw (check_conflicts, e) at h)
      ]

  Apart-conflicts :
      (options : ProjectionOptions A)
      → Apart options options.drop
      → check_conflicts A options ≡ ok tt
  unfolding check_conflicts
  Apart-conflicts options h =
      rw
        (
          check_conflicts,
          All-find_by (λ name. contains_key name options.renames) options.drop
              (All-mono _ _ (none-contains_key options) options.drop h),
        )
        refl

  module _ (provided requested : List (Descriptor A)) (policy : SchemaPolicy)
      (options : ProjectionOptions A) where
    pub check_operations-Suits :
        check_operations A provided requested policy options ≡ ok tt
        → Suits provided requested policy options
    unfolding check_operations
    check_operations-Suits h =
        let (p, h0) = guard-ok (not (is_exact policy)) exact_operations _ h in
        let (u, q, h1) =
          bind_ok (check_provided A provided (keys options.renames ++ options.drop)) _ h0 in
        let (v, r, h2) = bind_ok (check_conflicts A options) _ h1 in
        let (w, s, h3) =
          bind_ok (check_requested A requested "rename" (values options.renames)) _ h2 in
        let (x, t, h4) =
          bind_ok (check_requested A requested "default" (keys options.defaults)) _ h3 in
        record {
          not_exact = (is_exact_iff policy).0 (ground (arith, p));
          provides = provided-All provided (keys options.renames ++ options.drop) q;
          apart = conflicts-Apart options r;
          renames_to = requested-All requested "rename" (values options.renames) s;
          fills = requested-All requested "default" (keys options.defaults) t;
          casts_to = requested-All requested "cast" (keys options.casts) h4;
        }

    pub Suits-check_operations :
        Suits provided requested policy options
        → check_operations A provided requested policy options ≡ ok tt
    unfolding check_operations
    Suits-check_operations s =
        rw
          (
            check_operations,
            (is_exact_iff policy).1 s.not_exact,
            All-provided provided (keys options.renames ++ options.drop) s.provides,
            Apart-conflicts options s.apart,
            All-requested requested "rename" (values options.renames) s.renames_to,
            All-requested requested "default" (keys options.defaults) s.fills,
            All-requested requested "cast" (keys options.casts) s.casts_to,
          )
          refl
