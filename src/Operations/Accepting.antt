-- ===== src/Operations/Accepting.antt =====
-- Which schemas and options `plan_operations` accepts.
use mathlib.Core.Option.{some-injective}
use fsspec_data.Prelude.{
  ℕ, zero, suc, String, Bool, ◌≡◌, ◌↔◌, refl, ap, sym, ◌∙◌, true, false, not, none, some, List, [],
  ◌∷◌, length, get_elem?, position_from, arith, Bool-cases, ◌⊎◌, inl, inr, All, All-get_elem?,
  length-replicate, lt-get_elem?, get_elem?-lt, if◌then◌else◌,
}
use fsspec_data.Errors.{ok}
use fsspec_data.Arrow.{Arrow}
use fsspec_data.Policy.{SchemaPolicy, exact, projection, compatible, coerce}
use fsspec_data.Fields.{FieldMapping, Descriptor}
use fsspec_data.Fields.Projecting.{Succeeds}
use fsspec_data.Operations.{
  ProjectionOptions, FieldAddition, Progress, is_projection, check_used, renamed, is_dropped, start,
  plan_operations,
}
use fsspec_data.Operations.Checks.{Names, Suits, check_operations-Suits, Suits-check_operations}
use fsspec_data.Operations.Feeding.{Fillable, Marked}
use fsspec_data.Operations.Fills.{Fills, filled, mapped, added}
use fsspec_data.Operations.Sources.{IsSource, source_names-IsSource}
use fsspec_data.Operations.Planning.{plan_operations-Planned, plan_operations-Fills}
use fsspec_data.Operations.Usage.{plan_operations-IsUsed}
use fsspec_data.Operations.Looping.{feeding, fill_all-Fillable, Fillable-Filled}

is_projection_iff : (policy : SchemaPolicy) → (is_projection policy ≡ true) ↔ (policy ≡ projection)
is_projection_iff exact = (λ h. cc, λ h. cc)
is_projection_iff projection = (λ h. refl, λ h. refl)
is_projection_iff compatible = (λ h. cc, λ h. cc)
is_projection_iff coerce = (λ h. cc, λ h. cc)

module _ (A : Arrow) (policy : SchemaPolicy) (options : ProjectionOptions A)
    (provided : List (Descriptor A)) where
  -- The provided field is dropped by name, or its name after the renames is requested.
  abbrev pub Accounted : List (Descriptor A) → Descriptor A → Type 0
  Accounted requested f =
      (is_dropped A options f.name ≡ true) ⊎ Names A requested (renamed A options f.name)

  all_true :
      (used : List Bool) (n : ℕ)
      → ((i : ℕ) → get_elem? used i ≡ some false → ⊥)
      → position_from not n used ≡ none
  all_true [] n h = refl
  all_true (true ∷ used) n h = all_true used (suc n) (λ i. h (suc i))
  all_true (false ∷ used) n h = absurd (h 0 refl)

  Marked-All :
      (st : Progress A) (name : String) (r : List (Descriptor A))
      → All (λ t. Marked A policy options provided st t.name) r
      → Names A r name
      → Marked A policy options provided st name
  Marked-All st name [] h n = elim n [ ]
  Marked-All st name (t ∷ r) h (inl e) = rw (← e) h.0
  Marked-All st name (t ∷ r) h (inr n) = Marked-All st name r h.1 n

  Accounted-check_used :
      (requested : List (Descriptor A)) (st : Progress A)
      → All (Accounted requested) provided
      → length st.used ≡ length (feeding A policy options provided)
      → All (λ t. Marked A policy options provided st t.name) requested
      → check_used A provided (feeding A policy options provided) policy options st.used ≡ ok tt
  unfolding check_used
  Accounted-check_used requested st accounted l marks =
      rw (check_used, all_true st.used 0 used) refl
    where
      used : (i : ℕ) → get_elem? st.used i ≡ some false → ⊥
      used i h =
          let (entry, stands) =
            get_elem?-lt (feeding A policy options provided) i
              (omega (arith, l, lt-get_elem? st.used i h)) in
          let s =
            All-get_elem? (IsSource A provided options) (feeding A policy options provided) i
              (source_names-IsSource A provided options) stands in
          elim (All-get_elem? (Accounted requested) provided entry.0 accounted s.stands) [
            | inl dropped ↦ cc (dropped, s.kept)
            | inr named ↦ cc (
              h,
              Marked-All st (renamed A options s.field.name) requested marks named i entry stands
                  (sym s.named),
            )
          ]

  Fills-Names :
      (n : ℕ) (r : List (Descriptor A)) {ms : List FieldMapping} {bs : List (FieldAddition A)}
      (k : ℕ) (m : FieldMapping) (f : Descriptor A)
      → Fills A provided policy options n r ms bs
      → get_elem? ms k ≡ some m
      → get_elem? provided m.source_index ≡ some f
      → Names A r (renamed A options f.name)
  Fills-Names n [] k m f filled h at = cc
  Fills-Names n _ zero m f (mapped {t = t} {m = m'} p rest) h at =
      let same = some-injective m' m h in
      let fields : p.source ≡ f = some-injective p.source f (
        sym p.at_source ∙ ap (λ (m : FieldMapping). get_elem? provided m.source_index) same ∙ at) in
      inl (sym p.named ∙ ap (λ (f : Descriptor A). renamed A options f.name) fields)
  Fills-Names n _ (suc k) m f (mapped {r = r} p rest) h at =
      inr (Fills-Names (suc n) r k m f rest h at)
  Fills-Names n _ k m f (added {r = r} p rest) h at = inr (Fills-Names (suc n) r k m f rest h at)

  All-at :
      {B : Type 0} (P : B → Type 0) (xs : List B)
      → ((i : ℕ) (x : B) → get_elem? xs i ≡ some x → P x)
      → All P xs
  All-at P [] h = tt
  All-at P (x ∷ xs) h = (h 0 x refl, All-at P xs (λ i. h (suc i)))

  -- What `plan_operations` accepts.
  pub record AcceptsWith (requested : List (Descriptor A)) : Type 0 where
    pub suits : Suits A provided requested policy options
    pub fillable : All (Fillable A policy options provided) requested
    pub accounted : (policy ≡ projection) ⊎ All (Accounted requested) provided

  -- Options are accepted, and a plan is made, just where they suit the schemas and the policy (not exact;
  -- each renamed and each dropped name is that of one provided field, and no name is both; what is renamed
  -- to, filled or cast is requested); each requested field has either one provided field of its name,
  -- after drops and renames, and no default, with its type or a cast of a kind that the option for the
  -- field allows or, without one, that is safe under compatible or of any kind under coerce, and with
  -- nulls only where they are taken or under coerce; or no such field and a default of one value, which
  -- is null where the field takes nulls, or else one that arrow casts to its type; and, but for
  -- projection, each provided field is dropped or requested.
  pub plan_operations_iff :
      (requested : List (Descriptor A))
      → Succeeds (plan_operations A provided requested policy options) ↔ AcceptsWith requested
  unfolding plan_operations
  plan_operations_iff requested = (to, from)
    where
      to : Succeeds (plan_operations A provided requested policy options) → AcceptsWith requested
      to ((ms, bs), h) =
          let p = plan_operations-Planned A provided policy options requested ms bs h in
          record {
            suits = check_operations-Suits A provided requested policy options p.checked;
            fillable =
                fill_all-Fillable A policy options provided 0 requested
                  (start A (feeding A policy options provided)) p.st p.looped;
            accounted = elim (Bool-cases (is_projection policy)) [
              | inl e ↦ inl ((is_projection_iff policy).0 e)
              | inr other ↦ inr (
                  All-at (Accounted requested) provided λ i f at.
                    elim (plan_operations-IsUsed A provided policy options requested i f other h
                      at) [
                        | inl dropped ↦ inl dropped
                        | inr u ↦ inr (
                            Fills-Names 0 requested u.index u.mapping f
                              (plan_operations-Fills A provided policy options requested ms bs h)
                              u.stands (ap (get_elem? provided) u.takes ∙ at))
                      ])
            ];
          }

      from : AcceptsWith requested → Succeeds (plan_operations A provided requested policy options)
      from a =
          let done =
            Fillable-Filled A policy options provided 0 requested
              (start A (feeding A policy options provided))
              (length-replicate (length (feeding A policy options provided)) false) a.fillable in
          let used : (if is_projection policy
                then ok tt
                else check_used A provided (feeding A policy options provided) policy options
                    done.last.used)
              ≡ ok tt =
            elim (Bool-cases (is_projection policy)) [
              | inl e ↦ rw e refl
              | inr e ↦ rw e (elim a.accounted [
                | inl projects ↦ absurd (cc ((is_projection_iff policy).1 projects, e))
                | inr accounted ↦
                    Accounted-check_used requested done.last accounted done.as_long done.marked
              ])
            ] in
          (
            (done.last.mappings, done.last.additions),
            rw
                (
                  plan_operations,
                  Suits-check_operations A provided requested policy options a.suits,
                  done.runs,
                  used,
                )
                refl,
          )
