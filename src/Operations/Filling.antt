-- ===== src/Operations/Filling.antt =====
-- Which requested fields a round of `plan_operations` fills.
use mathlib.Core.Option.{some-injective}
use fsspec_data.Prelude.{
  sym, subst, ℕ, ◌≡◌, ◌≤◌, ◌↔◌, refl, ap, ◌∙◌, true, false, not, ◌&&◌, ◌==◌, Option, none, some,
  arith, Bool-cases, ◌⊎◌, inl, inr, if◌then◌else◌,
}
use fsspec_data.Errors.{
  ok, ◌>>=◌, bind_ok, guard, ok-injective, guard-ok, default_length, null_default, nullability,
}
use fsspec_data.DataType.{type_eq_iff}
use fsspec_data.Arrow.{Arrow, Outcome, done, failed}
use fsspec_data.Cast.{CastKind, safe, runtime_checked, lossy, rank}
use fsspec_data.Policy.{SchemaPolicy, exact, projection, compatible, coerce}
use fsspec_data.HashMap.{get}
use fsspec_data.Fields.{FieldMapping, Descriptor, narrows, classified, same_type}
use fsspec_data.Fields.Projecting.{Succeeds, Holds}
use fsspec_data.Operations.{
  ProjectionOptions, FieldAddition, is_coerce, or_else, policy_limit, check_cast, plan_mapping,
  plan_addition, cast_default,
}

-- The order of the casts, from `safe` over `runtime_checked` to `lossy`.
abbrev pub AtMost : CastKind → CastKind → Type 0
AtMost safe max = Unit
AtMost runtime_checked safe = ⊥
AtMost runtime_checked runtime_checked = Unit
AtMost runtime_checked lossy = Unit
AtMost lossy safe = ⊥
AtMost lossy runtime_checked = ⊥
AtMost lossy lossy = Unit

-- The casts that a policy allows by itself: compatible the safe ones, coerce all, the others none.
abbrev pub AllowedBy : SchemaPolicy → CastKind → Type 0
AllowedBy exact kind = ⊥
AllowedBy projection kind = ⊥
AllowedBy compatible kind = kind ≡ safe
AllowedBy coerce kind = Unit

-- The casts that are allowed where the options name this limit, or none.
abbrev pub Allowed : SchemaPolicy → Option CastKind → CastKind → Type 0
Allowed policy (some max) kind = AtMost kind max
Allowed policy none kind = AllowedBy policy kind

AtMost-rank : (kind max : CastKind) → AtMost kind max → rank kind ≤ rank max
unfolding rank
AtMost-rank safe safe h = omega arith
AtMost-rank safe runtime_checked h = omega arith
AtMost-rank safe lossy h = omega arith
AtMost-rank runtime_checked safe h = elim h [ ]
AtMost-rank runtime_checked runtime_checked h = omega arith
AtMost-rank runtime_checked lossy h = omega arith
AtMost-rank lossy safe h = elim h [ ]
AtMost-rank lossy runtime_checked h = elim h [ ]
AtMost-rank lossy lossy h = omega arith

rank-AtMost : (kind max : CastKind) → rank kind ≤ rank max → AtMost kind max
unfolding rank
rank-AtMost safe max h = tt
rank-AtMost runtime_checked safe h = absurd (omega (arith, h))
rank-AtMost runtime_checked runtime_checked h = tt
rank-AtMost runtime_checked lossy h = tt
rank-AtMost lossy safe h = absurd (omega (arith, h))
rank-AtMost lossy runtime_checked h = absurd (omega (arith, h))
rank-AtMost lossy lossy h = tt

-- The limit that the code computes is that of the two tables.
limit-Allowed :
    (policy : SchemaPolicy) (override : Option CastKind) (kind max : CastKind)
    → or_else override (policy_limit policy) ≡ some max
    → rank kind ≤ rank max
    → Allowed policy override kind
unfolding rank
limit-Allowed policy (some m) kind max e h = rank-AtMost kind m (rw (some-injective m max e) h)
limit-Allowed exact none kind max e h = cc
limit-Allowed projection none kind max e h = cc
limit-Allowed compatible none safe max e h = refl
limit-Allowed compatible none runtime_checked max e h = absurd (
    rank-AtMost runtime_checked safe
      (subst (λ m. rank runtime_checked ≤ rank m) (sym (some-injective safe max e)) h))
limit-Allowed compatible none lossy max e h =
    absurd (
      rank-AtMost lossy safe (subst (λ m. rank lossy ≤ rank m) (sym (some-injective safe max e)) h))
limit-Allowed coerce none kind max e h = tt

Allowed-limit :
    (policy : SchemaPolicy) (override : Option CastKind) (kind : CastKind)
    → Allowed policy override kind
    → (max : CastKind) × (or_else override (policy_limit policy) ≡ some max)
      × (rank kind ≤ rank max)
unfolding rank
Allowed-limit policy (some m) kind h = (m, refl, AtMost-rank kind m h)
Allowed-limit exact none kind h = elim h [ ]
Allowed-limit projection none kind h = elim h [ ]
Allowed-limit compatible none kind h = (safe, refl, AtMost-rank kind safe (rw h tt))
Allowed-limit coerce none safe h = (lossy, refl, omega arith)
Allowed-limit coerce none runtime_checked h = (lossy, refl, omega arith)
Allowed-limit coerce none lossy h = (lossy, refl, omega arith)

is_coerce_iff : (policy : SchemaPolicy) → (is_coerce policy ≡ true) ↔ (policy ≡ coerce)
is_coerce_iff exact = (λ h. cc, λ h. cc)
is_coerce_iff projection = (λ h. cc, λ h. cc)
is_coerce_iff compatible = (λ h. cc, λ h. cc)
is_coerce_iff coerce = (λ h. refl, λ h. refl)

module _ (A : Arrow) where
  -- The cast from one field to the other is registered, and of a kind that is allowed.
  abbrev pub Castable : SchemaPolicy → Option CastKind → Descriptor A → Descriptor A → Type 0
  Castable policy override s t =
      (kind : CastKind) × (classified A s t ≡ some kind) × Allowed policy override kind

  check_cast-rank :
      (s t : Descriptor A) (cast limit : Option CastKind)
      → check_cast A s t cast limit ≡ ok tt
      → (kind max : CastKind) × (cast ≡ some kind) × (limit ≡ some max) × (rank kind ≤ rank max)
  unfolding check_cast
  check_cast-rank s t none none h = cc
  check_cast-rank s t (some k) none h = cc
  check_cast-rank s t none (some m) h = cc
  check_cast-rank s t (some k) (some m) h = (k, m, refl, refl, ground arith)

  rank-check_cast :
      (s t : Descriptor A) (cast limit : Option CastKind) (kind max : CastKind)
      → cast ≡ some kind
      → limit ≡ some max
      → rank kind ≤ rank max
      → check_cast A s t cast limit ≡ ok tt
  unfolding check_cast
  rank-check_cast s t cast limit kind max e f le = rw (e, f) (below kind max le)
    where
      below :
          (kind max : CastKind)
          → rank kind ≤ rank max
          → check_cast A s t (some kind) (some max) ≡ ok tt
      below kind max le = ground arith

  module _ (policy : SchemaPolicy) (options : ProjectionOptions A) where
    -- The source can be mapped to the target: it has its type or a cast that the options or else the
    -- policy allow, and has nulls only where the target takes them, or else under coerce.
    abbrev pub MayMap : Descriptor A → Descriptor A → Type 0
    MayMap s t =
        ((s.data_type ≡ t.data_type) ⊎ Castable policy (get t.name options.casts) s t)
        × ((policy ≡ coerce) ⊎ Holds A s t)

    wide_iff :
        (s t : Descriptor A)
        → (not (narrows s t && not (is_coerce policy)) ≡ true) ↔ ((policy ≡ coerce) ⊎ Holds A s t)
    wide_iff s t = (
      λ h. elim (Bool-cases (is_coerce policy)) [
        | inl e ↦ inl ((is_coerce_iff policy).0 e)
        | inr e ↦ inr (ground (arith, h, e))
      ],
      λ h. elim h [
        | inl e ↦ let c = (is_coerce_iff policy).1 e in ground (arith, c)
        | inr holds ↦ ground (arith, holds)
      ],
    )

    pub plan_mapping-MayMap :
        (i n : ℕ) (s t : Descriptor A) (m : FieldMapping)
        → plan_mapping A i n s t policy (get t.name options.casts) ≡ ok m
        → MayMap s t
    unfolding plan_mapping
    plan_mapping-MayMap i n s t m h =
        let limit = or_else (get t.name options.casts) (policy_limit policy) in
        let (u, casts, h1) =
          bind_ok (if same_type A s t then ok tt else check_cast A s t (classified A s t) limit) _
            h in
        let (v, wide, h2) =
          bind_ok (guard (not (narrows s t && not (is_coerce policy))) (nullability t.name)) _ h1 in
        (
          elim (Bool-cases (same_type A s t)) [
            | inl e ↦ inl ((type_eq_iff A.other_discrete s.data_type t.data_type).0 e)
            | inr e ↦
                let (kind, max, is, limits, le) =
                  check_cast-rank s t (classified A s t) limit (rw e at casts) in
                inr (kind, is, limit-Allowed policy (get t.name options.casts) kind max limits le)
          ],
          (wide_iff s t).0 (ground (arith, wide)),
        )

    pub MayMap-Succeeds :
        (i n : ℕ) (s t : Descriptor A)
        → MayMap s t
        → Succeeds (plan_mapping A i n s t policy (get t.name options.casts))
    unfolding plan_mapping
    MayMap-Succeeds i n s t (casts, wide) =
        let limit = or_else (get t.name options.casts) (policy_limit policy) in
        let checked : (if same_type A s t then ok tt else check_cast A s t (classified A s t) limit)
            ≡ ok tt =
          elim (Bool-cases (same_type A s t)) [
            | inl e ↦ rw e refl
            | inr e ↦ rw e (elim casts [
              | inl same ↦
                  absurd (cc (e, (type_eq_iff A.other_discrete s.data_type t.data_type).1 same))
              | inr (kind, is, allowed) ↦
                  let (max, limits, le) =
                    Allowed-limit policy (get t.name options.casts) kind allowed in
                  rank-check_cast s t (classified A s t) limit kind max is limits le
            ])
          ] in
        (
          record {
            source_index = i;
            target_index = n;
            cast = classified A s t;
            check_nulls = narrows s t;
          },
          rw (plan_mapping, checked, (wide_iff s t).1 wide) refl,
        )

    -- The default can fill the target: it is one value, either a null that the target takes, or one that
    -- can be cast to its type.
    abbrev pub MayAdd : Descriptor A → A.Array → Type 0
    MayAdd t v =
        (A.len v ≡ 1)
        × (((A.is_null v 0 ≡ true) × (t.nullable ≡ true))
            ⊎ ((A.is_null v 0 ≡ false)
                × ((a : A.Array) × (A.cast_with_options false v t.data_type ≡ done a))))

    cast_default-done :
        (t : Descriptor A) (v a : A.Array)
        → cast_default A t v ≡ ok a
        → A.cast_with_options false v t.data_type ≡ done a
    unfolding cast_default
    cast_default-done t v a h = go (A.cast_with_options false v t.data_type) refl
      where
        go :
            (r : Outcome A.external.ArrowError A.Array)
            → A.cast_with_options false v t.data_type ≡ r
            → A.cast_with_options false v t.data_type ≡ done a
        go (done b) e = e ∙ ap done (ok-injective b a (rw (cast_default, e) at h))
        go (failed x) e = cc (rw (cast_default, e) at h)

    pub plan_addition-MayAdd :
        (n : ℕ) (t : Descriptor A) (v : A.Array) (a : FieldAddition A)
        → plan_addition A n t v ≡ ok a
        → MayAdd t v
    unfolding plan_addition
    plan_addition-MayAdd n t v a h =
        let (one, h1) = guard-ok (A.len v == 1) (default_length t.name) _ h in
        (
          ground (arith, one),
          elim (Bool-cases (A.is_null v 0)) [
            | inl e ↦ inl (
              e,
              (guard-ok t.nullable (null_default t.name) _
                  (bind_ok
                    (guard t.nullable (null_default t.name) >>= λ _.
                      ok (A.new_null_array t.data_type 1))
                    _ (rw e at h1)).1).0,
            )
            | inr e ↦
                let (filled, casts, _) = bind_ok (cast_default A t v) _ (rw e at h1) in
                inr (e, (filled, cast_default-done t v filled casts))
          ],
        )

    pub MayAdd-Succeeds :
        (n : ℕ) (t : Descriptor A) (v : A.Array) → MayAdd t v → Succeeds (plan_addition A n t v)
    unfolding plan_addition cast_default
    MayAdd-Succeeds n t v (one, inl (null, takes)) =
        let single : (A.len v == 1) ≡ true = ground arith in
        (
          record { target_index = n; value = A.new_null_array t.data_type 1 },
          rw (single, null, takes) refl,
        )
    MayAdd-Succeeds n t v (one, inr (null, (a, cast))) =
        let single : (A.len v == 1) ≡ true = ground arith in
        (record { target_index = n; value = a }, rw (single, null, cast_default, cast) refl)
