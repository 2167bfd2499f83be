-- ===== src/Cast/Integers.antt =====
-- What the integer types hold, and what a safe cast between them means.
use fsspec_data.Prelude.{
  ℕ, ◌^◌, ◌<◌, ◌≡◌, ◌≢◌, ◌⊎◌, ◌∙◌, Bool, true, false, ◌&&◌, some, arith, leb, if◌then◌else◌, inl,
  inr, Bool-cases,
}
use fsspec_data.DataType.{DataType, int8, int16, int32, int64, uint8, uint16, uint32, uint64, null}
use fsspec_data.Cast.{safe, lossy, classify, classify_distinct}
use fsspec_data.Cast.Order.{classify-ne}

-- `negsuc n` is -(n + 1).
pub data ℤ : Type 0 where
  pos : ℕ → ℤ
  negsuc : ℕ → ℤ

module _ {O : Type 0} where
  abbrev pub is_integer : DataType O → Bool
  is_integer int8 = true
  is_integer int16 = true
  is_integer int32 = true
  is_integer int64 = true
  is_integer uint8 = true
  is_integer uint16 = true
  is_integer uint32 = true
  is_integer uint64 = true
  is_integer _ = false

  -- How many negative integers a type holds, and how many others.
  abbrev pub negatives : DataType O → ℕ
  negatives int8 = 2 ^ 7
  negatives int16 = 2 ^ 15
  negatives int32 = 2 ^ 31
  negatives int64 = 2 ^ 63
  negatives _ = 0

  abbrev pub naturals : DataType O → ℕ
  naturals int8 = 2 ^ 7
  naturals int16 = 2 ^ 15
  naturals int32 = 2 ^ 31
  naturals int64 = 2 ^ 63
  naturals uint8 = 2 ^ 8
  naturals uint16 = 2 ^ 16
  naturals uint32 = 2 ^ 32
  naturals uint64 = 2 ^ 64
  naturals _ = 0

  -- The integer is a value of the type.
  abbrev pub Holds : DataType O → ℤ → Type 0
  Holds t (pos n) = n < naturals t
  Holds t (negsuc n) = n < negatives t

  -- The casts between two integer types compare the two ranges.
  distinct-integers :
      (s t : DataType O)
      → is_integer s ≡ true
      → is_integer t ≡ true
      → s ≢ t
      → classify_distinct s t ≡ (
          if leb (negatives s) (negatives t) && leb (naturals s) (naturals t)
          then some safe
          else some lossy)
  unfolding classify_distinct
  distinct-integers null int8 p q h = cc
  distinct-integers s t p q h = ground arith

module _ {O : Type 0} (d : Discrete O) (s t : DataType O) where
  abbrev covers : Bool
  covers = leb (negatives s) (negatives t) && leb (naturals s) (naturals t)

  covers-Holds : covers ≡ true → (v : ℤ) → Holds s v → Holds t v
  covers-Holds h (pos n) held = ground arith
  covers-Holds h (negsuc n) held = ground arith

  -- Where one range does not cover the other, there is a value between them.
  lost_value : covers ≡ false → (v : ℤ) × Holds s v × ¬ Holds t v
  lost_value h = elim (Bool-cases (leb (negatives s) (negatives t))) [
    | inl below ↦ (pos (naturals t), ground arith, omega arith)
    | inr below ↦ (negsuc (negatives t), ground arith, omega arith)
  ]

  -- A cast between two different integer types is classified as safe, and then the target holds
  -- every value of the source, or as lossy, and then some value of the source is lost.
  pub integer_cast :
      is_integer s ≡ true
      → is_integer t ≡ true
      → s ≢ t
      → ((classify d s t ≡ some safe) × ((v : ℤ) → Holds s v → Holds t v))
        ⊎ ((classify d s t ≡ some lossy) × ((v : ℤ) × Holds s v × ¬ Holds t v))
  integer_cast p q h =
      let e = classify-ne d s t h ∙ distinct-integers s t p q h in
      elim (Bool-cases covers) [
        | inl c ↦ inl (e ∙ rw c, covers-Holds c)
        | inr c ↦ inr (e ∙ rw c, lost_value c)
      ]
