-- ===== src/Codec/Writing.antt =====
-- The encodings beside the plain use of the writers.
use fsspec_data.Prelude.{◌≡◌, refl, true, List, [], ◌∷◌, All}
use fsspec_data.Errors.{Result, ok, err, panic, ◌>>=◌}
use fsspec_data.Arrow.{Arrow, done, failed}
use fsspec_data.Arrow.Laws.{ArrowLaws}
use fsspec_data.Codec.{
  Encoder, validate_batch, attempt, Writer, ipc_start_writer, parquet_start_writer,
  csv_start_writer, json_lines_start_writer, avro_start_writer, ipc_write_batch,
  parquet_write_batch, csv_write_batch, json_lines_write_batch, avro_write_batch, ipc_finish,
  parquet_finish, csv_finish, json_lines_finish, avro_finish, write_all, ipc_encode_stream,
  parquet_encode_stream, csv_encode_stream, json_lines_encode_stream, avro_encode_stream,
}

module _ (A : Arrow) (E : Encoder A) where
  -- the writer's own `write`, and `write` with `flush`
  abbrev pub plain : E.State → A.RecordBatch → Result A.external E.State
  plain s b = attempt A E (E.write s b)

  abbrev pub flushed : E.State → A.RecordBatch → Result A.external E.State
  flushed s b = attempt A E (E.write s b) >>= λ s'. attempt A E (E.flush s')

  -- The writes of the items in order, up to the first that has failed or is refused.
  abbrev pub written :
      (E.State → A.RecordBatch → Result A.external E.State)
      → E.State
      → List (Result A.external A.RecordBatch)
      → Result A.external E.State
  written step s [] = ok s
  written step s (item ∷ items) = item >>= λ b. step s b >>= λ s'. written step s' items

  -- The item has failed, or is a batch of the schema.
  abbrev pub OfSchema : A.Schema → Result A.external A.RecordBatch → Type 0
  OfSchema schema (ok b) = A.schema b ≡ schema
  OfSchema schema (err e) = Unit
  OfSchema schema panic = Unit

  abbrev with_state : Writer A E → E.State → Result A.external (Writer A E)
  with_state w s = ok (record w { writer = s })

  abbrev Writes :
      (Writer A E → A.RecordBatch → Result A.external (Writer A E))
      → (E.State → A.RecordBatch → Result A.external E.State)
      → Type 0
  Writes write_batch step =
      (w : Writer A E) (b : A.RecordBatch)
      → A.schema_eq (A.schema b) w.schema ≡ true
      → write_batch w b ≡ (step w.writer b >>= with_state w)

  ipc-Writes : Writes (ipc_write_batch A E) flushed
  unfolding ipc_write_batch validate_batch
  ipc-Writes w b h = rw h (after (E.write w.writer b))
    where
      after :
          (r : _)
          → (attempt A E r >>= λ s. attempt A E (E.flush s) >>= λ s'. with_state w s')
            ≡ (attempt A E r >>= (λ s. attempt A E (E.flush s)) >>= with_state w)
      after (done s) = refl
      after (failed e) = refl

  csv-Writes : Writes (csv_write_batch A E) plain
  unfolding csv_write_batch validate_batch
  csv-Writes w b h = rw h refl

  module _ (laws : ArrowLaws A) where
    write_all-written :
        (write_batch : Writer A E → A.RecordBatch → Result A.external (Writer A E))
        (step : E.State → A.RecordBatch → Result A.external E.State)
        → Writes write_batch step
        → (w : Writer A E) (items : List (Result A.external A.RecordBatch))
        → All (OfSchema w.schema) items
        → write_all A E write_batch w items ≡ (written step w.writer items >>= with_state w)
    unfolding write_all
    write_all-written write_batch step v w [] h = refl
    write_all-written write_batch step v w (err e ∷ items) h = refl
    write_all-written write_batch step v w (panic ∷ items) h = refl
    write_all-written write_batch step v w (ok b ∷ items) h =
        rw (v w b ((laws.schema_eq_iff (A.schema b) w.schema).1 h.0)) (
          after (step w.writer b)
            λ s. write_all-written write_batch step v (record w { writer = s }) items h.1)
      where
        after :
            (r : Result A.external E.State)
            → ((s : E.State)
                → write_all A E write_batch (record w { writer = s }) items
                  ≡ (written step s items >>= with_state w))
            → (r >>= with_state w >>= λ w'. write_all A E write_batch w' items)
              ≡ (r >>= (λ s. written step s items) >>= with_state w)
        after (ok s) rest = rest s
        after (err e) rest = refl
        after panic rest = refl

    -- the loop between a start with the encoder `s` and a finish
    loop-written :
        (write_batch : Writer A E → A.RecordBatch → Result A.external (Writer A E))
        (step : E.State → A.RecordBatch → Result A.external E.State)
        (end : E.State → Result A.external E.State)
        → Writes write_batch step
        → (schema : A.Schema) (items : List (Result A.external A.RecordBatch))
        → All (OfSchema schema) items
        → (s : E.State)
        → (write_all A E write_batch (record { schema = schema; writer = s }) items >>= λ w'.
            end w'.writer)
          ≡ (written step s items >>= end)
    loop-written write_batch step end v schema items h s =
        let w : Writer A E = record { schema = schema; writer = s } in
        rw (write_all-written write_batch step v w items h) (ended w (written step s items))
      where
        ended :
            (w : Writer A E) (r : Result A.external E.State)
            → (r >>= with_state w >>= λ w'. end w'.writer) ≡ (r >>= end)
        ended w (ok s) = refl
        ended w (err e) = refl
        ended w panic = refl

    encode-written :
        (write_batch : Writer A E → A.RecordBatch → Result A.external (Writer A E))
        (step : E.State → A.RecordBatch → Result A.external E.State)
        → Writes write_batch step
        → (schema : A.Schema) (items : List (Result A.external A.RecordBatch))
        → All (OfSchema schema) items
        → (attempt A E (E.try_new schema)
            >>= (λ s. ok (record { schema = schema; writer = s }))
            >>= λ (w : Writer A E).
                write_all A E write_batch w items >>= λ w'. attempt A E (E.finish w'.writer))
          ≡ (attempt A E (E.try_new schema) >>= λ s.
              written step s items >>= λ s'. attempt A E (E.finish s'))
    encode-written write_batch step v schema items h = started (attempt A E (E.try_new schema))
      where
        started :
            (r : Result A.external E.State)
            → (r >>= (λ s. ok (record { schema = schema; writer = s })) >>= λ (w : Writer A E).
                write_all A E write_batch w items >>= λ w'. attempt A E (E.finish w'.writer))
              ≡ (r >>= λ s. written step s items >>= λ s'. attempt A E (E.finish s'))
        started (ok s) =
            loop-written write_batch step (λ s'. attempt A E (E.finish s')) v schema items h s
        started (err e) = refl
        started panic = refl

    -- Items that have failed or are batches of the schema asked for are encoded as the writer of the
    -- format does alone: its start, a write for each batch in order up to the first item that has failed,
    -- with a flush after each for Arrow IPC and Parquet, and, but for CSV, its finish. The result and the
    -- errors are the writer's and the item's.
    pub encode_stream-written :
        (schema : A.Schema) (items : List (Result A.external A.RecordBatch))
        → All (OfSchema schema) items
        → (ipc_encode_stream A E schema items ≡ (
            attempt A E (E.try_new schema) >>= λ s.
            written flushed s items >>= λ s'. attempt A E (E.finish s')))
          × (parquet_encode_stream A E schema items ≡ (
              attempt A E (E.try_new schema) >>= λ s.
              written flushed s items >>= λ s'. attempt A E (E.finish s')))
          × (csv_encode_stream A E schema items ≡ (written plain E.build items >>= ok))
          × (json_lines_encode_stream A E schema items
              ≡ (written plain E.build items >>= λ s'. attempt A E (E.finish s')))
          × (avro_encode_stream A E schema items ≡ (
              attempt A E (E.try_new schema) >>= λ s.
              written plain s items >>= λ s'. attempt A E (E.finish s')))
    unfolding ipc_encode_stream parquet_encode_stream csv_encode_stream json_lines_encode_stream
        avro_encode_stream ipc_start_writer parquet_start_writer csv_start_writer
        json_lines_start_writer avro_start_writer ipc_finish parquet_finish csv_finish
        json_lines_finish avro_finish parquet_write_batch ipc_write_batch csv_write_batch
        json_lines_write_batch avro_write_batch
    encode_stream-written schema items h = (
      encode-written (ipc_write_batch A E) flushed ipc-Writes schema items h,
      encode-written (parquet_write_batch A E) flushed ipc-Writes schema items h,
      loop-written (csv_write_batch A E) plain ok csv-Writes schema items h E.build,
      loop-written (json_lines_write_batch A E) plain (λ s'. attempt A E (E.finish s')) csv-Writes
          schema items h E.build,
      encode-written (avro_write_batch A E) plain csv-Writes schema items h,
    )
