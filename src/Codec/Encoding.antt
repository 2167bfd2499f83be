-- ===== src/Codec/Encoding.antt =====
-- What an encoding that succeeds has written.
use fsspec_data.Prelude.{◌≡◌, refl, sym, ap, ◌∙◌, true, List, [], ◌∷◌, All, ◌⊎◌, inl, inr}
use fsspec_data.Errors.{
  Result, ok, err, panic, bind_ok, ok-injective, input_schema, guard-ok, ◌>>=◌,
}
use fsspec_data.Arrow.{Arrow}
use fsspec_data.Arrow.Laws.{ArrowLaws}
use fsspec_data.Codec.{
  Encoder, validate_batch, attempt, Writer, ipc_start_writer, parquet_start_writer,
  csv_start_writer, json_lines_start_writer, avro_start_writer, ipc_write_batch,
  parquet_write_batch, csv_write_batch, json_lines_write_batch, avro_write_batch, ipc_finish,
  parquet_finish, csv_finish, json_lines_finish, avro_finish, write_all, ipc_encode_stream,
  parquet_encode_stream, csv_encode_stream, json_lines_encode_stream, avro_encode_stream,
}

module _ (A : Arrow) (E : Encoder A) where
  -- The item is a batch of the schema.
  pub record IsOf (schema : A.Schema) (item : Result A.external A.RecordBatch) : Type 0 where
    pub batch : A.RecordBatch
    pub is_batch : item ≡ ok batch
    pub of_schema : A.schema batch ≡ schema

  -- A `write_batch` that takes batches of its schema only, and keeps the schema.
  abbrev Validates : (Writer A E → A.RecordBatch → Result A.external (Writer A E)) → Type 0
  Validates write_batch =
      (w w' : Writer A E) (b : A.RecordBatch)
      → write_batch w b ≡ ok w'
      → (A.schema_eq (A.schema b) w.schema ≡ true) × (w'.schema ≡ w.schema)

  ipc-Validates : Validates (ipc_write_batch A E)
  unfolding ipc_write_batch validate_batch
  ipc-Validates w w' b h =
      let (p, h0) = guard-ok (A.schema_eq (A.schema b) w.schema) input_schema _ h in
      let (s, q, h1) = bind_ok (attempt A E (E.write w.writer b)) _ h0 in
      let (t, r, h2) = bind_ok (attempt A E (E.flush s)) _ h1 in
      (p, ap (λ (w : Writer A E). w.schema) (sym (ok-injective _ w' h2)))

  parquet-Validates : Validates (parquet_write_batch A E)
  unfolding parquet_write_batch validate_batch
  parquet-Validates w w' b h =
      let (p, h0) = guard-ok (A.schema_eq (A.schema b) w.schema) input_schema _ h in
      let (s, q, h1) = bind_ok (attempt A E (E.write w.writer b)) _ h0 in
      let (t, r, h2) = bind_ok (attempt A E (E.flush s)) _ h1 in
      (p, ap (λ (w : Writer A E). w.schema) (sym (ok-injective _ w' h2)))

  csv-Validates : Validates (csv_write_batch A E)
  unfolding csv_write_batch validate_batch
  csv-Validates w w' b h =
      let (p, h0) = guard-ok (A.schema_eq (A.schema b) w.schema) input_schema _ h in
      let (s, q, h1) = bind_ok (attempt A E (E.write w.writer b)) _ h0 in
      (p, ap (λ (w : Writer A E). w.schema) (sym (ok-injective _ w' h1)))

  json_lines-Validates : Validates (json_lines_write_batch A E)
  unfolding json_lines_write_batch validate_batch
  json_lines-Validates w w' b h =
      let (p, h0) = guard-ok (A.schema_eq (A.schema b) w.schema) input_schema _ h in
      let (s, q, h1) = bind_ok (attempt A E (E.write w.writer b)) _ h0 in
      (p, ap (λ (w : Writer A E). w.schema) (sym (ok-injective _ w' h1)))

  avro-Validates : Validates (avro_write_batch A E)
  unfolding avro_write_batch validate_batch
  avro-Validates w w' b h =
      let (p, h0) = guard-ok (A.schema_eq (A.schema b) w.schema) input_schema _ h in
      let (s, q, h1) = bind_ok (attempt A E (E.write w.writer b)) _ h0 in
      (p, ap (λ (w : Writer A E). w.schema) (sym (ok-injective _ w' h1)))

  module _ (laws : ArrowLaws A) where
    write_all-IsOf :
        (write_batch : Writer A E → A.RecordBatch → Result A.external (Writer A E))
        → Validates write_batch
        → (w w' : Writer A E) (schema : A.Schema) (items : List (Result A.external A.RecordBatch))
        → w.schema ≡ schema
        → write_all A E write_batch w items ≡ ok w'
        → All (IsOf schema) items
    unfolding write_all
    write_all-IsOf write_batch v w w' schema [] same h = tt
    write_all-IsOf write_batch v w w' schema (item ∷ items) same h =
        let (b, p, h0) = bind_ok item _ h in
        let (w1, q, h1) = bind_ok (write_batch w b) _ h0 in
        let (equal, kept) = v w w1 b q in
        (
          record {
            batch = b;
            is_batch = p;
            of_schema = (laws.schema_eq_iff (A.schema b) w.schema).0 equal ∙ same;
          },
          write_all-IsOf write_batch v w1 w' schema items (kept ∙ same) h1,
        )

    -- A start of a writer that keeps the schema it is given.
    abbrev Starts : A.Schema → Result A.external (Writer A E) → Type 0
    Starts schema (ok w) = w.schema ≡ schema
    Starts schema (err e) = Unit
    Starts schema panic = Unit

    attempt-Starts :
        (schema : A.Schema) (r : Result A.external E.State)
        → Starts schema (r >>= λ s. ok (record { schema = schema; writer = s }))
    attempt-Starts schema (ok s) = refl
    attempt-Starts schema (err e) = tt
    attempt-Starts schema panic = tt

    -- the loop between the start and the finish of an `encode_stream`
    encode-IsOf :
        (start : Result A.external (Writer A E))
        (write_batch : Writer A E → A.RecordBatch → Result A.external (Writer A E))
        (finish : Writer A E → Result A.external E.State)
        → Validates write_batch
        → (schema : A.Schema) → Starts schema start
        → (items : List (Result A.external A.RecordBatch)) (s : E.State)
        → (do w ← start; w' ← write_all A E write_batch w items; finish w') ≡ ok s
        → All (IsOf schema) items
    encode-IsOf (ok w) write_batch finish v schema kept items s h =
        let (w', q, h1) = bind_ok (write_all A E write_batch w items) _ h in
        write_all-IsOf write_batch v w w' schema items kept q
    encode-IsOf (err e) write_batch finish v schema kept items s h = cc
    encode-IsOf panic write_batch finish v schema kept items s h = cc

    -- An encoding that succeeds, by any of the five codecs, had no failed item and only batches of the
    -- schema it was asked for.
    pub encode_stream-IsOf :
        (schema : A.Schema) (items : List (Result A.external A.RecordBatch)) (s : E.State)
        → (ipc_encode_stream A E schema items ≡ ok s)
          ⊎ (parquet_encode_stream A E schema items ≡ ok s)
          ⊎ (csv_encode_stream A E schema items ≡ ok s)
          ⊎ (json_lines_encode_stream A E schema items ≡ ok s)
          ⊎ (avro_encode_stream A E schema items ≡ ok s)
        → All (IsOf schema) items
    unfolding ipc_encode_stream parquet_encode_stream csv_encode_stream json_lines_encode_stream
        avro_encode_stream ipc_start_writer parquet_start_writer csv_start_writer
        json_lines_start_writer avro_start_writer
    encode_stream-IsOf schema items s (inl h) =
        encode-IsOf (ipc_start_writer A E schema) (ipc_write_batch A E) (ipc_finish A E)
          ipc-Validates schema (attempt-Starts schema (attempt A E (E.try_new schema))) items s h
    encode_stream-IsOf schema items s (inr (inl h)) =
        encode-IsOf (parquet_start_writer A E schema) (parquet_write_batch A E) (parquet_finish A E)
          parquet-Validates schema (attempt-Starts schema (attempt A E (E.try_new schema))) items s
          h
    encode_stream-IsOf schema items s (inr (inr (inl h))) =
        encode-IsOf (csv_start_writer A E schema) (csv_write_batch A E) (csv_finish A E)
          csv-Validates schema refl items s h
    encode_stream-IsOf schema items s (inr (inr (inr (inl h)))) =
        encode-IsOf (json_lines_start_writer A E schema) (json_lines_write_batch A E)
          (json_lines_finish A E) json_lines-Validates schema refl items s h
    encode_stream-IsOf schema items s (inr (inr (inr (inr h)))) =
        encode-IsOf (avro_start_writer A E schema) (avro_write_batch A E) (avro_finish A E)
          avro-Validates schema (attempt-Starts schema (attempt A E (E.try_new schema))) items s h
