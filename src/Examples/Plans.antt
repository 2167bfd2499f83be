-- ===== src/Examples/Plans.antt =====
-- Plans over the small model, and the theorems of the planner at them.
use fsspec_data.Prelude.{
  ◌≢◌, ◌⊎◌, inl, inr, ◌≡◌, String, refl, true, false, none, some, List, [], ◌∷◌,
}
use fsspec_data.Errors.{panic, ok, collect}
use fsspec_data.DataType.{int32, int64, utf8, float64, type_eq}
use fsspec_data.Cast.{safe, classify, classify_distinct, rank}
use fsspec_data.Format
use fsspec_data.Policy.{projection, compatible}
use fsspec_data.HashMap.{get}
use fsspec_data.Fields.{FieldDescriptor, plan_field_descriptors}
use fsspec_data.Operations.Accepting.{AcceptsWith, plan_operations_iff}
use fsspec_data.Operations.Usage.{IsUsed, plan_operations-IsUsed}
use fsspec_data.Operations.{
  is_dropped, ProjectionOptions, plan_operations, fill_all, fill, source_names, matching,
  check_operations, check_used, plan_mapping, plan_addition,
}
use fsspec_data.Plan.{
  InterchangePlan, plan_schema_with, schema_fields_equal, schema_descriptors, apply_batch,
  apply_mappings, apply_mapping, apply_additions, apply_addition,
}
use fsspec_data.Plan.Filling.{IsPlan, plan_schema_with-IsPlan}
use fsspec_data.Plan.Total.{plan_schema_with-not_panic}
use fsspec_data.Plan.Settles.{Settles}
use fsspec_data.Plan.Applying.{IsFault, Applied, apply_batch-Settles}
use fsspec_data.Fields.Projecting.{Succeeds}
use fsspec_data.Fields.Accepting.{plan_field_descriptors_iff}
use fsspec_data.Arrow.Laws.{IsBatch}
use fsspec_data.Examples.Toy.{Other, Batch, toy, toy-ArrowLaws}

abbrev Descriptor : Type 0
Descriptor = FieldDescriptor Other

abbrev id : Descriptor
id = record { name = "id"; data_type = int32; nullable = false }

abbrev name : Descriptor
name = record { name = "name"; data_type = utf8; nullable = true }

abbrev customer : Descriptor
customer = record { name = "customer"; data_type = int64; nullable = false }

abbrev score : Descriptor
score = record { name = "score"; data_type = float64; nullable = true }

abbrev pub people : List Descriptor
people = id ∷ name ∷ []

abbrev pub scores : List Descriptor
scores = score ∷ customer ∷ []

abbrev pub score_options : ProjectionOptions toy
score_options = record {
  renames = ("id", "customer") ∷ [];
  defaults = ("score", record { type = int64; cells = some 7 ∷ [] }) ∷ [];
  drop = "name" ∷ [];
  casts = [];
}

abbrev score_plan : InterchangePlan toy
score_plan = record {
  provided_format = Format.arrow;
  requested_format = Format.arrow;
  provided_schema = people;
  requested_schema = scores;
  policy = compatible;
  mappings =
      record { source_index = 0; target_index = 1; cast = some safe; check_nulls = false } ∷ [];
  additions =
      record { target_index = 0; value = record { type = float64; cells = some 7 ∷ [] } } ∷ [];
}

planned : plan_schema_with toy people scores compatible score_options ≡ ok score_plan
unfolding plan_schema_with plan_operations check_operations fill_all fill source_names matching
    check_used plan_mapping plan_addition get classify classify_distinct schema_descriptors type_eq
    rank collect
planned = refl

abbrev pub batch : Batch
batch = record {
  fields = people;
  columns =
      record { type = int32; cells = some 1 ∷ some 2 ∷ [] }
      ∷ record { type = utf8; cells = none ∷ some 5 ∷ [] }
      ∷ [];
  rows = 2;
}

batch-IsBatch : IsBatch toy batch
batch-IsBatch = record {
  fits = (
    record { of_type = refl; of_length = refl; no_nulls = λ e. refl },
    (record { of_type = refl; of_length = refl; no_nulls = λ e. cc }, tt),
  );
}

accepted : schema_fields_equal toy batch.fields score_plan.provided_schema ≡ true
unfolding schema_fields_equal type_eq
accepted = refl

planned_operations :
    plan_operations toy people scores compatible score_options
    ≡ ok (score_plan.mappings, score_plan.additions)
unfolding plan_operations check_operations fill_all fill source_names matching check_used
    plan_mapping plan_addition get classify classify_distinct type_eq rank
planned_operations = refl

plan_operations-IsUsed_example :
    (is_dropped toy score_options "id" ≡ true) ⊎ IsUsed 0 score_plan.mappings
plan_operations-IsUsed_example =
    plan_operations-IsUsed toy people compatible score_options scores 0 id refl planned_operations
      refl

plan_schema_with-IsPlan_example :
    (score_plan.provided_schema ≡ people)
    × (score_plan.requested_schema ≡ scores)
    × (score_plan.policy ≡ compatible)
    × IsPlan toy score_options score_plan
plan_schema_with-IsPlan_example =
    plan_schema_with-IsPlan toy people scores compatible score_options score_plan planned

apply_batch-Settles_example :
    Settles
      (IsFault toy score_options score_plan batch)
      (Applied toy score_options score_plan batch)
      (apply_batch toy score_plan batch)
apply_batch-Settles_example =
    apply_batch-Settles toy score_options score_plan batch toy-ArrowLaws
      (plan_schema_with-IsPlan toy people scores compatible score_options score_plan planned).3
      batch-IsBatch accepted

applied :
    apply_batch toy score_plan batch
    ≡ ok (record {
      fields = scores;
      columns =
          record { type = float64; cells = some 7 ∷ some 7 ∷ [] }
          ∷ record { type = int64; cells = some 1 ∷ some 2 ∷ [] }
          ∷ [];
      rows = 2;
    })
unfolding apply_batch apply_mappings apply_mapping apply_additions apply_addition
    schema_fields_equal type_eq collect
applied = refl

plan_schema_with-not_panic_example :
    plan_schema_with toy people scores compatible score_options ≢ panic
plan_schema_with-not_panic_example =
    plan_schema_with-not_panic toy people scores compatible score_options

id_name : ◌≢◌ {A = String} "id" "name"
id_name e = cc

plan_field_descriptors_iff_example :
    Succeeds (plan_field_descriptors toy people (name ∷ []) projection)
plan_field_descriptors_iff_example =
    (plan_field_descriptors_iff toy people (name ∷ []) projection).1
      ((name, inr (id_name, inl (refl, refl, tt)), refl, λ h. refl), tt)

plan_operations_iff_example : AcceptsWith toy compatible score_options people scores
plan_operations_iff_example =
    (plan_operations_iff toy compatible score_options people scores).0
      ((score_plan.mappings, score_plan.additions), planned_operations)
