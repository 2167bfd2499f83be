-- ===== src/Examples/Toy.antt =====
-- Arrays of optional numbers, as an instance of the arrow interface. Its casts keep the cells, and fail
-- where the target is the boolean type.
use fsspec_data.Prelude.{
  ℕ, suc, ◌≡◌, ◌↔◌, refl, ap, ◌∙◌, Bool, true, false, ◌&&◌, ◌||◌, ◌==◌, str_eq, eq_iff, Option,
  none, some, List, [], ◌∷◌, map, length, get_elem?, take, drop, replicate, arith, if◌then◌else◌,
  Bool-cases, inl, inr,
}
use fsspec_data.Errors.{Externals}
use fsspec_data.DataType.{DataType, boolean, type_eq, type_eq_iff}
use fsspec_data.Fields.{FieldDescriptor, bool_eq}
use fsspec_data.Arrow.{Arrow, done, failed}
use fsspec_data.Arrow.Laws.{ArrowLaws, FitsField, FitsFields}

abbrev pub Other : Type 0
Other = Unit {0}

abbrev pub other_discrete : Discrete Other
other_discrete a b = yes refl

abbrev pub externals : Externals
externals = record { IoError = ℕ; ArrowError = ℕ; ParquetError = ℕ }

pub record Cells : Type 0 where
  pub type : DataType Other
  pub cells : List (Option ℕ)

abbrev pub nulls : List (Option ℕ) → ℕ
nulls [] = 0
nulls (none ∷ cells) = suc (nulls cells)
nulls (some n ∷ cells) = nulls cells

abbrev pub is_none_at : List (Option ℕ) → ℕ → Bool
is_none_at cells i = elim (get_elem? cells i) [
  | none ↦ false
  | some c ↦ elim c [ none ↦ true | some n ↦ false ]
]

abbrev pub pick : List (Option ℕ) → List ℕ → Option (List (Option ℕ))
pick cells [] = some []
pick cells (i ∷ is) =
    let rest = pick cells is in
    elim (get_elem? cells i) [
      | none ↦ none
      | some c ↦ elim rest [ none ↦ none | some cs ↦ some (c ∷ cs) ]
    ]

abbrev pub is_boolean : DataType Other → Bool
is_boolean boolean = true
is_boolean _ = false

pub record Batch : Type 0 where
  pub fields : List (FieldDescriptor Other)
  pub columns : List Cells
  pub rows : ℕ

abbrev fits : ℕ → FieldDescriptor Other → Cells → Bool
fits rows f c =
    type_eq other_discrete c.type f.data_type
    && length c.cells == rows
    && (f.nullable || nulls c.cells == 0)

abbrev fits_all : ℕ → List (FieldDescriptor Other) → List Cells → Bool
fits_all rows [] [] = true
fits_all rows [] (c ∷ cs) = false
fits_all rows (f ∷ fs) [] = false
fits_all rows (f ∷ fs) (c ∷ cs) = fits rows f c && fits_all rows fs cs

abbrev field_eq : FieldDescriptor Other → FieldDescriptor Other → Bool
field_eq a b =
    str_eq a.name b.name
    && type_eq other_discrete a.data_type b.data_type
    && bool_eq a.nullable b.nullable

abbrev fields_eq : List (FieldDescriptor Other) → List (FieldDescriptor Other) → Bool
fields_eq [] [] = true
fields_eq [] (b ∷ bs) = false
fields_eq (a ∷ as') [] = false
fields_eq (a ∷ as') (b ∷ bs) = field_eq a b && fields_eq as' bs

abbrev sliced : ℕ → ℕ → Cells → Cells
sliced offset n c = record c { cells = take n (drop offset c.cells) }

abbrev pub toy : Arrow
toy = record {
  external = externals;
  Other = Other;
  other_discrete = other_discrete;
  debug = λ t. "type";
  Field = FieldDescriptor Other;
  name = λ f. f.name;
  field_type = λ f. f.data_type;
  is_nullable = λ f. f.nullable;
  Schema = List (FieldDescriptor Other);
  fields = λ s. s;
  schema_eq = fields_eq;
  Array = Cells;
  array_type = λ a. a.type;
  len = λ a. length a.cells;
  is_null = λ a i. is_none_at a.cells i;
  null_count = λ a. nulls a.cells;
  new_null_array = λ t n. record { type = t; cells = replicate n none };
  cast_with_options =
      λ safe a t. if is_boolean t then failed 1 else done (record { type = t; cells = a.cells });
  take = λ a is. elim (pick a.cells is) [
    | none ↦ failed 2
    | some cs ↦ done (record { type = a.type; cells = cs })
  ];
  RecordBatch = Batch;
  schema = λ b. b.fields;
  columns = λ b. b.columns;
  num_rows = λ b. b.rows;
  slice = λ b offset n. record {
    fields = b.fields;
    columns = map (sliced offset n) b.columns;
    rows = n;
  };
  memory_size = λ b. b.rows;
  try_new_with_options = λ s cs rows.
      if fits_all rows s cs
      then done (record { fields = s; columns = cs; rows = rows })
      else failed 3;
}

field_eq_iff : (a b : FieldDescriptor Other) → (field_eq a b ≡ true) ↔ (a ≡ b)
field_eq_iff a b = (
  λ h. ground (arith, eq_iff a.name b.name, type_eq_iff other_discrete a.data_type b.data_type),
  λ h. ground (arith, eq_iff a.name b.name, type_eq_iff other_discrete a.data_type b.data_type),
)

fields_eq-to : (s t : List (FieldDescriptor Other)) → fields_eq s t ≡ true → s ≡ t
fields_eq-to [] [] h = refl
fields_eq-to [] (b ∷ t) h = cc
fields_eq-to (a ∷ s) [] h = cc
fields_eq-to (a ∷ s) (b ∷ t) h = elim (Bool-cases (field_eq a b)) [
  | inl e ↦ cc ((field_eq_iff a b).0 e, fields_eq-to s t (rw e at h))
  | inr e ↦ cc (rw e at h)
]

fields_eq_self : (s : List (FieldDescriptor Other)) → fields_eq s s ≡ true
fields_eq_self [] = refl
fields_eq_self (a ∷ s) = rw ((field_eq_iff a a).1 refl) (fields_eq_self s)

fits-FitsField :
    (rows : ℕ) (f : FieldDescriptor Other) (c : Cells)
    → fits rows f c ≡ true
    → FitsField toy rows f c
fits-FitsField rows f c h = record {
  of_type = ground (arith, type_eq_iff other_discrete c.type f.data_type);
  of_length = ground arith;
  no_nulls = λ n. ground arith;
}

FitsField-fits :
    (rows : ℕ) (f : FieldDescriptor Other) (c : Cells)
    → FitsField toy rows f c
    → fits rows f c ≡ true
FitsField-fits rows f c h =
    ground
      (arith, type_eq_iff other_discrete c.type f.data_type, h.of_type, h.of_length, h.no_nulls)

fits_all-FitsFields :
    (rows : ℕ) (fs : List (FieldDescriptor Other)) (cs : List Cells)
    → fits_all rows fs cs ≡ true
    → FitsFields toy rows fs cs
fits_all-FitsFields rows [] [] h = tt
fits_all-FitsFields rows [] (c ∷ cs) h = cc
fits_all-FitsFields rows (f ∷ fs) [] h = cc
fits_all-FitsFields rows (f ∷ fs) (c ∷ cs) h = elim (Bool-cases (fits rows f c)) [
  | inl e ↦ (fits-FitsField rows f c e, fits_all-FitsFields rows fs cs (rw e at h))
  | inr e ↦ cc (rw e at h)
]

FitsFields-fits_all :
    (rows : ℕ) (fs : List (FieldDescriptor Other)) (cs : List Cells)
    → FitsFields toy rows fs cs
    → fits_all rows fs cs ≡ true
FitsFields-fits_all rows [] [] h = refl
FitsFields-fits_all rows [] (c ∷ cs) h = elim h [ ]
FitsFields-fits_all rows (f ∷ fs) [] h = elim h [ ]
FitsFields-fits_all rows (f ∷ fs) (c ∷ cs) h =
    rw (FitsField-fits rows f c h.0) (FitsFields-fits_all rows fs cs h.1)

cast-done :
    (safe : Bool) (a b : Cells) (t : DataType Other)
    → toy.cast_with_options safe a t ≡ done b
    → b ≡ record { type = t; cells = a.cells }
cast-done safe a b t h = elim (Bool-cases (is_boolean t)) [
  | inl e ↦ cc (rw e at h)
  | inr e ↦ cc (rw e at h)
]

try_new-holds :
    (s : List (FieldDescriptor Other)) (cs : List Cells) (rows : ℕ) (b : Batch)
    → toy.try_new_with_options s cs rows ≡ done b
    → (b.fields ≡ s) × (b.columns ≡ cs) × (b.rows ≡ rows) × FitsFields toy rows s cs
try_new-holds s cs rows b h = elim (Bool-cases (fits_all rows s cs)) [
  | inl e ↦
      let made : b ≡ record { fields = s; columns = cs; rows = rows } = cc (rw e at h) in
      (
        ap (λ x. x.fields) made,
        ap (λ x. x.columns) made,
        ap (λ x. x.rows) made,
        fits_all-FitsFields rows s cs e,
      )
  | inr e ↦ cc (rw e at h)
]

pub toy-ArrowLaws : ArrowLaws toy
toy-ArrowLaws = record {
  schema_eq_iff = λ s t. (fields_eq-to s t, λ e. rw (← e) (fields_eq_self s));
  cast_type = λ safe a b t e.
      let c = cast-done safe a b t e in (ap (λ x. x.type) c, ap (λ x. length x.cells) c);
  cast_nulls = λ a b t n e z. ap (λ x. nulls x.cells) (cast-done false a b t e) ∙ z;
  try_new_fits = λ s cs rows h.
      (record { fields = s; columns = cs; rows = rows }, rw (FitsFields-fits_all rows s cs h));
  try_new_holds = try_new-holds;
}
