-- ===== src/DataType.antt =====
-- arrow's `DataType`, as far as the source names its variants: the casts of rust/src/plan.rs match on
-- them. All other variants are the parameter `O`.
use fsspec_data.Prelude.{◌≡◌, refl, ◌↔◌, Bool, true, false}

pub data DataType (O : Type 0) : Type 0 where
  null boolean : DataType O
  int8 int16 int32 int64 : DataType O
  uint8 uint16 uint32 uint64 : DataType O
  float16 float32 float64 : DataType O
  utf8 large_utf8 : DataType O
  date32 date64 : DataType O
  other : O → DataType O

pub DataType-discrete : {O : Type 0} → Discrete O → Discrete (DataType O)
DataType-discrete d = hlevel d

abbrev is_yes {ℓ} : {P : Type ℓ} → Dec P → Bool
is_yes (yes p) = true
is_yes (no n) = false

is_yes_iff {ℓ} : {P : Type ℓ} (d : Dec P) → (is_yes d ≡ true) ↔ P
is_yes_iff (yes p) = (λ e. p, λ q. refl)
is_yes_iff (no n) = (λ e. cc, λ p. absurd (n p))

module _ {O : Type 0} (d : Discrete O) where
  -- The derived `==` of `DataType`.
  unfoldable pub type_eq : DataType O → DataType O → Bool
  unfolding DataType-discrete
  type_eq s t = is_yes (DataType-discrete d s t)

  pub type_eq_iff : (s t : DataType O) → (type_eq s t ≡ true) ↔ (s ≡ t)
  unfolding type_eq
  type_eq_iff s t = is_yes_iff (DataType-discrete d s t)
