-- ===== src/Python/Planned.antt =====
-- What the tuples of `plan_schema` say of its plan.
use mathlib.Core.Option
use mathlib.Core.Option.{some-injective}
use fsspec_data.Prelude.{
  ℕ, String, Bool, ◌≡◌, refl, sym, ap, ◌∙◌, Option, none, some, List, [], ◌∷◌, map,
}
use fsspec_data.Errors.{
  Result, ok, err, panic, ◌>>=◌, collect, collect-cons-ok, bind_ok, ok-injective,
}
use fsspec_data.Arrow.{Arrow}
use fsspec_data.Cast
use fsspec_data.Cast.Names.{parse-as_str, kind_parse_iff}
use fsspec_data.Policy
use fsspec_data.Policy.{SchemaPolicy}
use fsspec_data.HashMap.{HashMap}
use fsspec_data.Fields.{FieldMapping}
use fsspec_data.Operations.{FieldAddition}
use fsspec_data.Plan.{InterchangePlan, plan_schema_with}
use fsspec_data.Python.Schemas.{mapping_tuple, addition_tuple, or_default, parse_cast, plan_schema}
use fsspec_data.Python.{returned, raised, panicked, to_python}

module _ (A : Arrow) where
  -- The mapping that a tuple tells of, with the cast of that name.
  abbrev named : Option String → Result A.external (Option Cast.CastKind)
  named none = ok none
  named (some name) = Cast.parse name >>= λ kind. ok (some kind)

  abbrev pub mapping_of : ℕ × ℕ × Option String × Bool → Result A.external FieldMapping
  mapping_of (source, target, cast, check) = named cast >>= λ kind.
      ok (record { source_index = source; target_index = target; cast = kind; check_nulls = check })

  abbrev pub addition_of : ℕ × A.Array → FieldAddition A
  addition_of (target, value) = record { target_index = target; value = value }

  named-as_str : (c : Option Cast.CastKind) → named (Option.map Cast.as_str c) ≡ ok c
  named-as_str none = refl
  named-as_str (some k) = rw (parse-as_str {X = A.external} k) refl

  mapping_of-tuple : (mapping : FieldMapping) → mapping_of (mapping_tuple A mapping) ≡ ok mapping
  mapping_of-tuple mapping = rw (named-as_str mapping.cast) refl

  mappings_of-tuples :
      (mappings : List FieldMapping)
      → collect mapping_of (map (mapping_tuple A) mappings) ≡ ok mappings
  unfolding collect
  mappings_of-tuples [] = refl
  mappings_of-tuples (m ∷ ms) = rw (collect, mapping_of-tuple m, mappings_of-tuples ms) refl

  additions_of-tuples :
      (additions : List (FieldAddition A))
      → map addition_of (map (addition_tuple A) additions) ≡ additions
  additions_of-tuples [] = refl
  additions_of-tuples (a ∷ as') = ap (λ xs. a ∷ xs) (additions_of-tuples as')

  -- The entries that were parsed are the names of the kinds that were read.
  kinds_of-entries :
      (entries : HashMap String) (kinds : HashMap Cast.CastKind)
      → collect (parse_cast A) entries ≡ ok kinds
      → entries ≡ map (λ entry. (entry.0, Cast.as_str entry.1)) kinds
  unfolding collect
  kinds_of-entries [] kinds h =
      ap (map (λ entry. (entry.0, Cast.as_str entry.1))) (ok-injective [] kinds h)
  kinds_of-entries ((name, value) ∷ entries) kinds h =
      let (kind, rest, p, q, e) = collect-cons-ok (parse_cast A) (name, value) entries h in
      let (k, parsed, made) = bind_ok (Cast.parse value) _ p in
      let read : (name, value) ≡ (kind.0, Cast.as_str kind.1) =
        ap (λ v. (name, v)) ((kind_parse_iff value k).0 parsed)
        ∙ ap (λ entry. (entry.0, Cast.as_str entry.1)) (ok-injective (name, k) kind made) in
      ap (λ entry. entry ∷ entries) read
      ∙ ap (λ es. (kind.0, Cast.as_str kind.1) ∷ es) (kinds_of-entries entries rest q)
      ∙ ap (map (λ entry. (entry.0, Cast.as_str entry.1))) e

  pub to_python-returned :
      {B : Type 0} (r : Result A.external B) {b : B} → to_python r ≡ returned b → r ≡ ok b
  unfolding to_python
  to_python-returned (ok c) {b} h =
      ap (λ q. elim q [ returned x ↦ ok x | raised e ↦ ok b | panicked ↦ ok b ]) h
  to_python-returned (err e) h = cc
  to_python-returned panic h = cc

  -- What `plan_schema` returns is a plan that `plan_schema_with` makes for the policy of that name, from
  -- the tuples of which the mappings, casts included, and the additions can be read back; the casts asked
  -- for are parsed by name.
  pub plan_schema-tuples :
      (collected : (V : Type 0) → HashMap V → HashMap V) (provided requested : A.Schema)
      (policy : String) (renames : Option (HashMap String)) (defaults : Option (HashMap A.Array))
      (drop : Option (List String)) (casts : Option (HashMap String))
      (mappings : List (ℕ × ℕ × Option String × Bool)) (additions : List (ℕ × A.Array))
      → plan_schema A collected provided requested policy renames defaults drop casts
        ≡ returned (mappings, additions)
      → (parsed : SchemaPolicy) × (kinds : HashMap Cast.CastKind) × (plan : InterchangePlan A)
        × (policy ≡ Policy.as_str parsed)
        × (or_default A casts ≡ map (λ entry. (entry.0, Cast.as_str entry.1)) kinds)
        × (plan_schema_with A provided requested parsed (record {
          renames = or_default A renames;
          defaults = collected A.Array (or_default A defaults);
          drop = or_default A drop;
          casts = collected Cast.CastKind kinds;
        })
            ≡ ok plan)
        × (collect mapping_of mappings ≡ ok plan.mappings)
        × (map addition_of additions ≡ plan.additions)
  unfolding plan_schema
  plan_schema-tuples collected provided requested policy renames defaults drop casts mappings
        additions h =
      let (parsed, e, h1) = bind_ok (Policy.parse policy) _ (to_python-returned _ h) in
      let (kinds, d, h2) = bind_ok (collect (parse_cast A) (or_default A casts)) _ h1 in
      let (plan, made, h3) = bind_ok _ _ h2 in
      let same = ok-injective _ _ h3 in
      (
        parsed,
        kinds,
        plan,
        (Policy.policy_parse_iff policy parsed).0 e,
        kinds_of-entries (or_default A casts) kinds d,
        made,
        ap (λ r. collect mapping_of r.0) (sym same) ∙ mappings_of-tuples plan.mappings,
        ap (λ r. map addition_of r.1) (sym same) ∙ additions_of-tuples plan.additions,
      )
