-- ===== src/Codecs/Interchange.antt =====
-- An interchange from its plan to the decoding of what it has written: `plan_schema_with`, then
-- `apply_stream`, `encode_stream` and `decode`.
use fsspec_data.Prelude.{
  ◌++◌, ℕ, ◌+◌, ◌<◌, ◌≡◌, refl, sym, ap, subst, ◌∙◌, some, List, [], ◌∷◌, length, length-append,
  All, map, arith, inl, inr,
}
use fsspec_data.Errors.{Result, ok, err, panic, collect, collect-ok-cons}
use fsspec_data.Arrow.{Arrow}
use fsspec_data.Arrow.Laws.{ArrowLaws}
use fsspec_data.Policy.{SchemaPolicy}
use fsspec_data.Operations.{ProjectionOptions}
use fsspec_data.Plan.{InterchangePlan, plan_schema_with, apply_batch, apply_stream}
use fsspec_data.Plan.Reshaping.{apply_batch-Reshapes, plan_schema_with-requested}
use fsspec_data.Stream.{Tokens}
use fsspec_data.Stream.Rows.{RowLaws}
use fsspec_data.Stream.Collecting.{batch_rows}
use fsspec_data.Registry.{
  BuiltIn, arrow_ipc_codec, parquet_codec, csv_codec, json_lines_codec, avro_codec,
}
use fsspec_data.Codec.{Encoder}
use fsspec_data.Codec.Writing.{OfSchema}
use fsspec_data.Codec.Encoding.{IsOf, encode_stream-IsOf}
use fsspec_data.Reader.{ByteReader}
use fsspec_data.Decoding.{Formats}
use fsspec_data.Codecs.{Encoders, encoder, encode_stream, encode, decode}
use fsspec_data.Codecs.Whole.{Decodes}
use fsspec_data.Codecs.RoundTrip.{written_by, encode_stream-written_by, ReadsBack, decode-encode}

-- The rows of the items that have not failed.
abbrev pub item_rows : (A : Arrow) → List (Result A.external A.RecordBatch) → ℕ
item_rows A [] = 0
item_rows A (ok b ∷ items) = A.num_rows b + item_rows A items
item_rows A (err e ∷ items) = item_rows A items
item_rows A (panic ∷ items) = item_rows A items

All-append : {B : Type 0} (P : B → Type 0) (xs ys : List B) → All P xs → All P ys → All P (xs ++ ys)
All-append P [] ys h k = k
All-append P (x ∷ xs) ys h k = (h.0, All-append P xs ys h.1 k)

encode_stream-All :
    (A : Arrow) (E : Encoders A)
    → ArrowLaws A
    → (codec : BuiltIn) (schema : A.Schema) (items : List (Result A.external A.RecordBatch))
      (s : Encoder.State (encoder A E codec))
    → encode_stream A E codec schema items ≡ ok s
    → All (IsOf A (encoder A E codec) schema) items
unfolding encode_stream
encode_stream-All A E laws arrow_ipc_codec schema items s h =
    encode_stream-IsOf A E.ipc laws schema items s (inl h)
encode_stream-All A E laws parquet_codec schema items s h =
    encode_stream-IsOf A E.parquet laws schema items s (inr (inl h))
encode_stream-All A E laws csv_codec schema items s h =
    encode_stream-IsOf A E.csv laws schema items s (inr (inr (inl h)))
encode_stream-All A E laws json_lines_codec schema items s h =
    encode_stream-IsOf A E.json_lines laws schema items s (inr (inr (inr (inl h))))
encode_stream-All A E laws avro_codec schema items s h =
    encode_stream-IsOf A E.avro laws schema items s (inr (inr (inr (inr h))))

module _ (A : Arrow) (E : Encoders A) (laws : ArrowLaws A) (codec : BuiltIn) where
  module _ (plan : InterchangePlan A) where
    abbrev Typed : Result A.external A.RecordBatch → Type 0
    Typed = OfSchema A (encoder A E codec) plan.requested_schema

    result-Typed :
        (b : A.RecordBatch) (r : Result A.external A.RecordBatch)
        → apply_batch A plan b ≡ r
        → Typed r
    result-Typed b (ok out) h = (apply_batch-Reshapes A plan laws b out h).of_schema
    result-Typed b (err e) h = tt
    result-Typed b panic h = tt

    apply_stream-Typed :
        (items : List (Result A.external A.RecordBatch)) → All Typed (apply_stream A plan items)
    unfolding apply_stream
    apply_stream-Typed [] = tt
    apply_stream-Typed (ok b ∷ items) =
        (result-Typed b (apply_batch A plan b) refl, apply_stream-Typed items)
    apply_stream-Typed (err e ∷ items) = (tt, apply_stream-Typed items)
    apply_stream-Typed (panic ∷ items) = (tt, apply_stream-Typed items)

    -- What a plan makes of a stream is encoded to the requested schema as the format's own writer does
    -- alone, whatever the items: no batch is refused for its schema.
    pub encode_stream-apply_stream :
        (items : List (Result A.external A.RecordBatch))
        → encode_stream A E codec plan.requested_schema (apply_stream A plan items)
          ≡ written_by A E codec plan.requested_schema (apply_stream A plan items)
    encode_stream-apply_stream items =
        encode_stream-written_by A E laws codec plan.requested_schema (apply_stream A plan items)
          (apply_stream-Typed items)

    module _ (rows : RowLaws A) where
      -- The batches of the items, and what the plan makes of them.
      pub record Applies (items : List (Result A.external A.RecordBatch)) : Type 0 where
        pub batches : List A.RecordBatch
        pub outs : List A.RecordBatch
        pub all_done : items ≡ map ok batches
        pub applied : collect (apply_batch A plan) batches ≡ ok outs
        pub stream_done : apply_stream A plan items ≡ map ok outs
        pub of_schema : All (λ b. A.schema b ≡ plan.requested_schema) outs
        pub of_rows : length (batch_rows A rows outs) ≡ item_rows A items

      IsOf-Applies :
          (items : List (Result A.external A.RecordBatch))
          → All (IsOf A (encoder A E codec) plan.requested_schema) (apply_stream A plan items)
          → Applies items
      unfolding apply_stream collect
      IsOf-Applies [] h = record {
        batches = [];
        outs = [];
        all_done = refl;
        applied = refl;
        stream_done = refl;
        of_schema = tt;
        of_rows = refl;
      }
      IsOf-Applies (ok b ∷ items) h =
          let rest = IsOf-Applies items h.1 in
          let reshapes = apply_batch-Reshapes A plan laws b h.0.batch h.0.is_batch in
          record {
            batches = b ∷ rest.batches;
            outs = h.0.batch ∷ rest.outs;
            all_done = ap (λ items. ok b ∷ items) rest.all_done;
            applied = collect-ok-cons (apply_batch A plan) b rest.batches h.0.is_batch rest.applied;
            stream_done = cc (h.0.is_batch, rest.stream_done);
            of_schema = (reshapes.of_schema, rest.of_schema);
            of_rows =
                length-append (rows.rows h.0.batch) (batch_rows A rows rest.outs)
                ∙ omega (arith, rows.length-rows h.0.batch, reshapes.of_rows, rest.of_rows);
          }
      IsOf-Applies (err e ∷ items) h = absurd (cc (h.0.is_batch))
      IsOf-Applies (panic ∷ items) h = absurd (cc (h.0.is_batch))

  outs-All :
      (rows : RowLaws A) (P : rows.Row → Type 0) (outs : List A.RecordBatch)
      → All {A = Result A.external A.RecordBatch}
          (λ item. (out : A.RecordBatch) → item ≡ ok out → All P (rows.rows out))
          (map (λ b. ok b) outs)
      → All P (batch_rows A rows outs)
  outs-All rows P [] h = tt
  outs-All rows P (out ∷ outs) h =
      All-append P (rows.rows out) _ (h.0 out refl) (outs-All rows P outs h.1)

  module _ (R : ByteReader A.external) (F : Formats A R) (rows : RowLaws A) where
    -- Where a plan is made, and what it makes of a stream is encoded, every item of the stream was a
    -- batch and the plan took each; and `decode`, given the requested schema, returns of the encoding the
    -- schema that the format keeps and the rows of what the plan made of the batches, in order and as
    -- many as the batches have, where the format can represent the rows that the plan made, the
    -- operations of its writer keep such rows and its reader reads what is put out, and with more fuel
    -- than there are rows.
    pub decode-apply_stream :
        (provided requested : A.Schema) (policy : SchemaPolicy) (options : ProjectionOptions A)
        (plan : InterchangePlan A) (back : ReadsBack A E R F rows codec requested)
        (items : List (Result A.external A.RecordBatch)) (s : Encoder.State (encoder A E codec))
        (tokens : Tokens) (fuel : ℕ)
        → plan_schema_with A provided requested policy options ≡ ok plan
        → encode_stream A E codec requested (apply_stream A plan items) ≡ ok s
        → All
            (λ item. (out : A.RecordBatch) → item ≡ ok out → All back.Represents (rows.rows out))
            (apply_stream A plan items)
        → item_rows A items < fuel
        → (batches outs : List A.RecordBatch) × (items ≡ map ok batches)
          × (collect (apply_batch A plan) batches ≡ ok outs)
          × (length (batch_rows A rows outs) ≡ item_rows A items)
          × Decodes A R F rows back.kept (batch_rows A rows outs) (
              decode A R F fuel tokens codec
                (Encoder.output (encoder A E codec) s)
                (some requested))
    unfolding encode
    decode-apply_stream provided requested policy options plan back items s tokens fuel planned
          encoded represented enough =
        let same = plan_schema_with-requested A provided requested policy options plan planned in
        let made = IsOf-Applies plan rows items (
          encode_stream-All A E laws codec plan.requested_schema (apply_stream A plan items) s (
            subst (λ schema. encode_stream A E codec schema (apply_stream A plan items) ≡ ok s)
              (sym same) encoded)) in
        let written : encode_stream A E codec requested (map ok made.outs) ≡ ok s =
          rw (← made.stream_done) encoded in
        (
          made.batches,
          made.outs,
          made.all_done,
          made.applied,
          made.of_rows,
          decode-encode A E R F rows laws codec requested back made.outs
              (Encoder.output (encoder A E codec) s) tokens fuel
              (subst (λ schema. All (λ b. A.schema b ≡ schema) made.outs) same made.of_schema)
              (outs-All rows back.Represents made.outs (rw made.stream_done at represented))
              (rw (encode, written) refl) (omega (arith, made.of_rows, enough)),
        )
