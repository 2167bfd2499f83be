-- ===== src/Codecs/RoundTrip.antt =====
-- What `decode` makes of the bytes that `encode` returns.
use mathlib.Core.List.{append_assoc, append-nil}
use fsspec_data.Prelude.{ℕ, ◌<◌, ◌≡◌, sym, ◌∙◌, some, List, [], ◌∷◌, ◌++◌, subst, length, All, map}
use fsspec_data.Errors.{Result, ok, ◌>>=◌, bind_ok, ok-injective}
use fsspec_data.Arrow.{Arrow, Outcome, done, failed}
use fsspec_data.Arrow.Laws.{ArrowLaws}
use fsspec_data.Stream.{Tokens, Item}
use fsspec_data.Stream.Rows.{RowLaws, source_rows}
use fsspec_data.Stream.Sound.{IsDone}
use fsspec_data.Stream.Collecting.{batch_rows}
use fsspec_data.Registry.{
  BuiltIn, arrow_ipc_codec, parquet_codec, csv_codec, json_lines_codec, avro_codec,
}
use fsspec_data.Codec.{Encoder, attempt}
use fsspec_data.Codec.Writing.{written, plain, flushed, OfSchema, encode_stream-written}
use fsspec_data.Reader.{Bytes, ByteReader}
use fsspec_data.Decoding.{Formats}
use fsspec_data.Decoding.Opening.{opened}
use fsspec_data.Codecs.{Encoders, encoder, encode_stream, encode, decode}
use fsspec_data.Codecs.Whole.{Decodes, decode-Decodes}

attempt-done :
    (A : Arrow) (E : Encoder A) (r : Outcome E.Fault E.State) {s : E.State}
    → attempt A E r ≡ ok s
    → r ≡ done s
attempt-done A E (done t) h = cc
attempt-done A E (failed e) h = cc

All-parts : {B : Type 0} (P : B → Type 0) (xs ys : List B) → All P (xs ++ ys) → All P xs × All P ys
All-parts P [] ys h = (tt, h)
All-parts P (x ∷ xs) ys h = let (first, later) = All-parts P xs ys h.1 in ((h.0, first), later)

module _ (A : Arrow) (E : Encoders A) where
  abbrev State : BuiltIn → Type 0
  State codec = Encoder.State (encoder A E codec)

  -- The format's own start, write and end.
  abbrev pub begun : (codec : BuiltIn) → A.Schema → Result A.external (State codec)
  begun arrow_ipc_codec schema = attempt A E.ipc (E.ipc.try_new schema)
  begun parquet_codec schema = attempt A E.parquet (E.parquet.try_new schema)
  begun csv_codec schema = ok E.csv.build
  begun json_lines_codec schema = ok E.json_lines.build
  begun avro_codec schema = attempt A E.avro (E.avro.try_new schema)

  abbrev pub step_of :
      (codec : BuiltIn) → State codec → A.RecordBatch → Result A.external (State codec)
  step_of arrow_ipc_codec = flushed A E.ipc
  step_of parquet_codec = flushed A E.parquet
  step_of csv_codec = plain A E.csv
  step_of json_lines_codec = plain A E.json_lines
  step_of avro_codec = plain A E.avro

  abbrev pub ended : (codec : BuiltIn) → State codec → Result A.external (State codec)
  ended arrow_ipc_codec s = attempt A E.ipc (E.ipc.finish s)
  ended parquet_codec s = attempt A E.parquet (E.parquet.finish s)
  ended csv_codec s = ok s
  ended json_lines_codec s = attempt A E.json_lines (E.json_lines.finish s)
  ended avro_codec s = attempt A E.avro (E.avro.finish s)

  -- The plain use of a format's writer, for items up to the first that has failed.
  abbrev pub written_by :
      (codec : BuiltIn)
      → A.Schema
      → List (Result A.external A.RecordBatch)
      → Result A.external (State codec)
  written_by codec schema items = begun codec schema >>= λ s.
      written A (encoder A E codec) (step_of codec) s items >>= λ s'. ended codec s'

  pub encode_stream-written_by :
      ArrowLaws A
      → (codec : BuiltIn) (schema : A.Schema) (items : List (Result A.external A.RecordBatch))
      → All (OfSchema A (encoder A E codec) schema) items
      → encode_stream A E codec schema items ≡ written_by codec schema items
  unfolding encode_stream
  encode_stream-written_by laws arrow_ipc_codec schema items h =
      (encode_stream-written A E.ipc laws schema items h).0
  encode_stream-written_by laws parquet_codec schema items h =
      (encode_stream-written A E.parquet laws schema items h).1
  encode_stream-written_by laws csv_codec schema items h =
      (encode_stream-written A E.csv laws schema items h).2
  encode_stream-written_by laws json_lines_codec schema items h =
      (encode_stream-written A E.json_lines laws schema items h).3
  encode_stream-written_by laws avro_codec schema items h =
      (encode_stream-written A E.avro laws schema items h).4

  abbrev of_schema :
      (codec : BuiltIn) (schema : A.Schema) (bs : List A.RecordBatch)
      → All (λ b. A.schema b ≡ schema) bs
      → All (OfSchema A (encoder A E codec) schema) (map ok bs)
  of_schema codec schema [] h = tt
  of_schema codec schema (b ∷ bs) h = (h.0, of_schema codec schema bs h.1)

  module _ (R : ByteReader A.external) (F : Formats A R) (rows : RowLaws A) where
    -- Documented behaviour of a format's writer and reader, one operation at a time, at a schema: `Given`
    -- says which rows a writer has been given, and `Closed` which rows it has put out when it is ended.
    -- Only rows that the format can represent, in batches of the schema, are kept; the reader, given the
    -- schema, returns the rows put out, in batches of its own, under a schema that the format keeps.
    pub record ReadsBack (codec : BuiltIn) (schema : A.Schema) : Type 1 where
      pub kept : A.Schema
      pub Represents : rows.Row → Type 0
      pub Given : State codec → List rows.Row → Type 0
      pub Closed : State codec → List rows.Row → Type 0
      pub begins : (s : State codec) → begun codec schema ≡ ok s → Given s []
      pub writes :
          (s s' : State codec) (b : A.RecordBatch) (rs : List rows.Row)
          → Given s rs
          → A.schema b ≡ schema
          → All Represents (rows.rows b)
          → Encoder.write (encoder A E codec) s b ≡ done s'
          → Given s' (rs ++ rows.rows b)
      pub flushes :
          (s s' : State codec) (rs : List rows.Row)
          → Given s rs
          → Encoder.flush (encoder A E codec) s ≡ done s'
          → Given s' rs
      pub ends :
          (s s' : State codec) (rs : List rows.Row)
          → Given s rs
          → ended codec s ≡ ok s'
          → Closed s' rs
      pub reads :
          (s : State codec) (rs : List rows.Row)
          → Closed s rs
          → (items : List (Item A)) × (opened A R F codec
                (some schema)
                1024
                (R.cursor (Encoder.output (encoder A E codec) s))
              ≡ ok (kept, items))
            × All (IsDone A) items
            × (source_rows A rows items ≡ rs)

    module _ (schema : A.Schema) where
      plain-Given :
          (codec : BuiltIn) (back : ReadsBack codec schema) (s s' : State codec) (b : A.RecordBatch)
          (rs : List rows.Row)
          → back.Given s rs
          → A.schema b ≡ schema
          → All back.Represents (rows.rows b)
          → plain A (encoder A E codec) s b ≡ ok s'
          → back.Given s' (rs ++ rows.rows b)
      plain-Given codec back s s' b rs g h r e =
          back.writes s s' b rs g h r (attempt-done A (encoder A E codec) _ e)

      flushed-Given :
          (codec : BuiltIn) (back : ReadsBack codec schema) (s s' : State codec) (b : A.RecordBatch)
          (rs : List rows.Row)
          → back.Given s rs
          → A.schema b ≡ schema
          → All back.Represents (rows.rows b)
          → flushed A (encoder A E codec) s b ≡ ok s'
          → back.Given s' (rs ++ rows.rows b)
      flushed-Given codec back s s' b rs g h r e =
          let (t, wrote, flushes) = bind_ok (plain A (encoder A E codec) s b) _ e in
          back.flushes t s' (rs ++ rows.rows b) (plain-Given codec back s t b rs g h r wrote)
            (attempt-done A (encoder A E codec) _ flushes)

      step-Given :
          (codec : BuiltIn) (back : ReadsBack codec schema) (s s' : State codec) (b : A.RecordBatch)
          (rs : List rows.Row)
          → back.Given s rs
          → A.schema b ≡ schema
          → All back.Represents (rows.rows b)
          → step_of codec s b ≡ ok s'
          → back.Given s' (rs ++ rows.rows b)
      step-Given arrow_ipc_codec = flushed-Given arrow_ipc_codec
      step-Given parquet_codec = flushed-Given parquet_codec
      step-Given csv_codec = plain-Given csv_codec
      step-Given json_lines_codec = plain-Given json_lines_codec
      step-Given avro_codec = plain-Given avro_codec

      written-Given :
          (codec : BuiltIn) (back : ReadsBack codec schema) (bs : List A.RecordBatch)
          (s s' : State codec) (rs : List rows.Row)
          → back.Given s rs
          → All (λ b. A.schema b ≡ schema) bs
          → All back.Represents (batch_rows A rows bs)
          → written A (encoder A E codec) (step_of codec) s (map ok bs) ≡ ok s'
          → back.Given s' (rs ++ batch_rows A rows bs)
      written-Given codec back [] s s' rs g h r e =
          rw (append-nil rs) (subst (λ t. back.Given t rs) (ok-injective s s' e) g)
      written-Given codec back (b ∷ bs) s s' rs g h r e =
          let (t, stepped, rest) = bind_ok (step_of codec s b) _ e in
          let (first, later) = All-parts back.Represents (rows.rows b) (batch_rows A rows bs) r in
          subst (back.Given s') (append_assoc rs (rows.rows b) (batch_rows A rows bs)) (
            written-Given codec back bs t s' (rs ++ rows.rows b)
              (step-Given codec back s t b rs g h.0 first stepped) h.1 later rest)

      -- What the writer alone has put out for batches of the schema, the reader reads.
      written_by-Closed :
          (codec : BuiltIn) (back : ReadsBack codec schema) (bs : List A.RecordBatch)
          (s : State codec)
          → All (λ b. A.schema b ≡ schema) bs
          → All back.Represents (batch_rows A rows bs)
          → written_by codec schema (map ok bs) ≡ ok s
          → back.Closed s (batch_rows A rows bs)
      written_by-Closed codec back bs s h r e =
          let (t, began, e1) = bind_ok (begun codec schema) _ e in
          let (u, wrote, over) =
            bind_ok (written A (encoder A E codec) (step_of codec) t (map ok bs)) _ e1 in
          back.ends u s (batch_rows A rows bs)
            (written-Given codec back bs t u [] (back.begins t began) h r wrote) over

    -- The bytes that `encode` returns for batches of its schema, whose rows the format can represent, are
    -- decoded by `decode`, given the same schema, as the schema that the format keeps and the same rows in
    -- order, where the operations of the format's writer keep such rows and its reader reads what is put
    -- out, and with more fuel than there are rows.
    pub decode-encode :
        ArrowLaws A
        → (codec : BuiltIn) (schema : A.Schema) (back : ReadsBack codec schema)
          (bs : List A.RecordBatch) (data' : Bytes) (tokens : Tokens) (fuel : ℕ)
        → All (λ b. A.schema b ≡ schema) bs
        → All back.Represents (batch_rows A rows bs)
        → encode A E codec schema bs ≡ ok data'
        → length (batch_rows A rows bs) < fuel
        → Decodes A R F rows back.kept
            (batch_rows A rows bs)
            (decode A R F fuel tokens codec data' (some schema))
    unfolding encode
    decode-encode laws codec schema back bs data' tokens fuel h represented encoded enough =
        let (s, ran, out) = bind_ok (encode_stream A E codec schema (map ok bs)) _ encoded in
        let ran' =
          sym (encode_stream-written_by laws codec schema (map ok bs) (of_schema codec schema bs h))
          ∙ ran in
        let (items, opens, dones, same) =
          back.reads s (batch_rows A rows bs)
            (written_by-Closed schema codec back bs s h represented ran') in
        let bytes = ok-injective _ data' out in
        rw (← same) (
          decode-Decodes A R F rows codec data' (some schema) back.kept items tokens fuel
            (rw (← bytes) opens) dones (rw same enough))
