-- ===== src/Cast/Order.antt =====
-- The order that `classify` of rust/src/plan.rs puts on the types.
use fsspec_data.Prelude.{◌≡◌, ◌≢◌, refl, ◌∙◌, sym, subst, none, some, arith}
use fsspec_data.DataType.{DataType, null, type_eq_iff}
use fsspec_data.Cast.{CastKind, safe, classify, classify_distinct}

module _ {O : Type 0} where
  distinct_trans :
      (a b c : DataType O)
      → classify_distinct a b ≡ some safe
      → classify_distinct b c ≡ some safe
      → classify_distinct a c ≡ some safe
  unfolding classify_distinct
  distinct_trans null b c p q = refl
  distinct_trans a b c p q = ground arith

  distinct_antisymm :
      (a b : DataType O)
      → a ≢ b
      → classify_distinct a b ≡ some safe
      → classify_distinct b a ≢ some safe
  unfolding classify_distinct
  distinct_antisymm null null h p q = h refl
  distinct_antisymm a b h p q = ground arith

  distinct_converse :
      (a b : DataType O) → a ≢ null → classify_distinct a b ≢ none → classify_distinct b a ≢ none
  unfolding classify_distinct
  distinct_converse null b h p q = h refl
  distinct_converse a b h p q = ground arith

module _ {O : Type 0} (d : Discrete O) where
  pub classify_self : (s : DataType O) → classify d s s ≡ none
  unfolding classify
  classify_self s = rw ((type_eq_iff d s s).1 refl)

  pub classify-ne : (s t : DataType O) → s ≢ t → classify d s t ≡ classify_distinct s t
  unfolding classify
  classify-ne s t h = ground (arith, type_eq_iff d s t)

  -- A type that a cast leads away from is not the type that it leads to.
  pub classify-some-ne : (s t : DataType O) (k : CastKind) → classify d s t ≡ some k → s ≢ t
  unfolding classify
  classify-some-ne s t k h e = ground (arith, type_eq_iff d s t)

  pub classify-distinct :
      (s t : DataType O) (k : CastKind) → classify d s t ≡ some k → classify_distinct s t ≡ some k
  classify-distinct s t k h = sym (classify-ne s t (classify-some-ne s t k h)) ∙ h

  -- Two casts classified as safe compose to a cast classified as safe.
  pub safe_trans :
      (a b c : DataType O)
      → classify d a b ≡ some safe
      → classify d b c ≡ some safe
      → classify d a c ≡ some safe
  safe_trans a b c p q =
      classify-ne a c apart
      ∙ distinct_trans a b c (classify-distinct a b safe p) (classify-distinct b c safe q)
    where
      apart : a ≢ c
      apart e =
          distinct_antisymm a b (classify-some-ne a b safe p) (classify-distinct a b safe p)
            (subst (λ x. classify_distinct b x ≡ some safe) (sym e) (classify-distinct b c safe q))

  -- No cast classified as safe has a converse that is classified as safe.
  pub safe_antisymm : (a b : DataType O) → classify d a b ≡ some safe → classify d b a ≢ some safe
  safe_antisymm a b p q =
      distinct_antisymm a b (classify-some-ne a b safe p) (classify-distinct a b safe p)
        (classify-distinct b a safe q)

  -- Where a cast from another type than null is registered, so is its converse.
  pub classify_converse :
      (a b : DataType O) (k : CastKind) → a ≢ null → classify d a b ≡ some k → classify d b a ≢ none
  classify_converse a b k h p q =
      distinct_converse a b h (λ e. cc (e, classify-distinct a b k p))
        (sym (classify-ne b a (λ e. classify-some-ne a b k p (sym e))) ∙ q)
