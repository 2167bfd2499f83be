-- ===== src/Codecs/Whole.antt =====
-- `decode`: all the rows that a format's reader returns.
use fsspec_data.Prelude.{
  ℕ, ◌<◌, ◌≡◌, refl, sym, ap, ◌∙◌, ◌==◌, Bool-cases, inl, inr, false, Option, none, some, List,
  length, get_elem?-append_last, All, arith,
}
use fsspec_data.Errors.{Result, ok, ◌>>=◌, ok-injective}
use fsspec_data.Arrow.{Arrow}
use fsspec_data.Stream.{
  Tokens, StreamOptions, DecodedStream, Item, default_options, new_token, is_cancelled, new,
}
use fsspec_data.Stream.Rows.{RowLaws, source_rows}
use fsspec_data.Stream.Sound.{IsDone}
use fsspec_data.Stream.Collecting.{FitsOptions, batch_rows, collect_batches_lem}
use fsspec_data.Registry.{
  BuiltIn, arrow_ipc_codec, parquet_codec, csv_codec, json_lines_codec, avro_codec,
}
use fsspec_data.Reader.{Bytes, ByteReader}
use fsspec_data.Decoding.{Formats, decode_reader, decode_stream}
use fsspec_data.Decoding.Opening.{opened, decode_reader-opened}
use fsspec_data.Codecs.{DecodedBatches, decode}

new-schema :
    (A : Arrow) (schema : A.Schema) (source : List (Item A)) (options : StreamOptions) (token : ℕ)
    (s : DecodedStream A)
    → new A schema source options token ≡ ok s
    → s.schema ≡ schema
unfolding new
new-schema A schema source options token s h = elim (Bool-cases (options.batch_size == 0)) [
  | inl e ↦ cc (rw e at h)
  | inr e ↦ ap (λ (s : DecodedStream A). s.schema) (sym (ok-injective _ s (rw e at h)))
]

-- A token of its own is not cancelled.
pub is_cancelled-new_token :
    (tokens : Tokens) → is_cancelled (new_token tokens).0 (new_token tokens).1 ≡ false
unfolding is_cancelled new_token
is_cancelled-new_token tokens =
    rw (is_cancelled, new_token, get_elem?-append_last tokens false) refl

module _ (A : Arrow) (R : ByteReader A.external) (F : Formats A R) where
  -- The stream over data is made of what the format's reader opens.
  pub decode_stream-opened :
      (codec : BuiltIn) (given : Option A.Schema) (options : StreamOptions) (token : ℕ)
      (data' : Bytes)
      → decode_stream A R F codec given options token data' ≡ (
          opened A R F codec given options.batch_size (R.cursor data') >>= λ o.
          new A o.0 o.1 options token)
  unfolding decode_stream decode_reader
  decode_stream-opened arrow_ipc_codec given options token data' =
      decode_reader-opened A R F arrow_ipc_codec none options token (R.cursor data')
  decode_stream-opened parquet_codec given options token data' =
      decode_reader-opened A R F parquet_codec none options token (R.cursor data')
  decode_stream-opened csv_codec given options token data' =
      decode_reader-opened A R F csv_codec given options token (R.cursor data')
  decode_stream-opened json_lines_codec given options token data' =
      decode_reader-opened A R F json_lines_codec given options token (R.cursor data')
  decode_stream-opened avro_codec given options token data' =
      decode_reader-opened A R F avro_codec none options token (R.cursor data')

  module _ (laws : RowLaws A) where
    -- The schema and the rows that `decode` returns, in batches of the default size.
    pub record Decodes (schema : A.Schema) (rows : List laws.Row)
        (r : Option (Result A.external (DecodedBatches A))) : Type 0 where
      pub decoded : DecodedBatches A
      pub returned : r ≡ some (ok decoded)
      pub of_schema : decoded.schema ≡ schema
      pub sized : All (FitsOptions A laws default_options) decoded.batches
      pub all_rows : batch_rows A laws decoded.batches ≡ rows

    -- Where the format's reader opens the data and returns no error, `decode` returns the reader's schema
    -- and all its rows in order, in batches of between one row and the default size, with more fuel than
    -- there are rows.
    pub decode-Decodes :
        (codec : BuiltIn) (data' : Bytes) (given : Option A.Schema) (schema : A.Schema)
        (items : List (Item A)) (tokens : Tokens) (fuel : ℕ)
        → opened A R F codec given 1024 (R.cursor data') ≡ ok (schema, items)
        → All (IsDone A) items
        → length (source_rows A laws items) < fuel
        → Decodes schema (source_rows A laws items) (decode A R F fuel tokens codec data' given)
    unfolding decode
    decode-Decodes codec data' given schema items tokens fuel opens dones enough =
        let (token, tokens') = new_token tokens in
        let (s, batches, made, runs, sized, rows) =
          collect_batches_lem A laws schema items default_options token tokens' fuel (omega arith)
            (λ l p. cc) refl dones (is_cancelled-new_token tokens) enough in
        let streams : decode_stream A R F codec given default_options token data' ≡ ok s =
          decode_stream-opened codec given default_options token data' ∙ rw (opens, made) refl in
        record {
          decoded = record { schema = s.schema; batches = batches };
          returned = rw (decode, streams, runs) refl;
          of_schema = new-schema A schema items default_options token s made;
          sized = sized;
          all_rows = rows;
        }
