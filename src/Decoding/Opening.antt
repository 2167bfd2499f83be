-- ===== src/Decoding/Opening.antt =====
-- What a codec opens: a schema and the items behind it.
use fsspec_data.Prelude.{ℕ, ◌≡◌, refl, sym, true, Option, List, map}
use fsspec_data.Errors.{Result, ok, err, panic, ◌>>=◌}
use fsspec_data.Arrow.{Arrow}
use fsspec_data.Format
use fsspec_data.Plan.{lift}
use fsspec_data.Stream.{StreamOptions, Item, new}
use fsspec_data.Registry.{
  BuiltIn, arrow_ipc_codec, parquet_codec, csv_codec, json_lines_codec, avro_codec,
}
use fsspec_data.Reader.{ByteReader, new_chunk_reader}
use fsspec_data.Decoding.{Formats, required_schema, from_item, lift_parquet, decode_reader}

module _ (A : Arrow) (R : ByteReader A.external) (F : Formats A R) where
  abbrev pub Opened : Type 0
  Opened = Result A.external (A.Schema × List (Item A))

  -- The format's own reader, over a batch size and a byte reader.
  abbrev pub opened : BuiltIn → Option A.Schema → ℕ → R.State → Opened
  opened arrow_ipc_codec given size reader =
      lift A (F.ipc_try_new reader) >>= λ o. ok (o.0, map (from_item A) o.1)
  opened parquet_codec given size reader = new_chunk_reader R reader >>= λ chunks.
      lift_parquet A (F.parquet_try_new chunks) >>= λ plain.
      lift_parquet A (F.build (F.with_batch_size size plain)) >>= λ items.
      ok (F.builder_schema (F.with_batch_size size plain), map (from_item A) items)
  opened csv_codec given size reader = required_schema A Format.csv given >>= λ schema.
      lift A (F.csv_build schema true size reader) >>= λ items. ok (schema, map (from_item A) items)
  opened json_lines_codec given size reader =
      required_schema A Format.json_lines given >>= λ schema.
      lift A (F.json_build schema size reader) >>= λ items. ok (schema, map (from_item A) items)
  opened avro_codec given size reader =
      lift A (F.avro_build size reader) >>= λ o. ok (o.0, map (from_item A) o.1)

  bind_assoc :
      {B C D : Type 0} (r : Result A.external B) (f : B → Result A.external C)
      (g : C → Result A.external D)
      → (r >>= f >>= g) ≡ (r >>= λ b. f b >>= g)
  bind_assoc (ok b) f g = refl
  bind_assoc (err e) f g = refl
  bind_assoc panic f g = refl

  -- Every codec opens its source, and makes the stream of what it opened.
  pub decode_reader-opened :
      (codec : BuiltIn) (given : Option A.Schema) (options : StreamOptions) (cancellation : ℕ)
      (reader : R.State)
      → decode_reader A R F codec given options cancellation reader
        ≡ (opened codec given options.batch_size reader >>= λ o. new A o.0 o.1 options cancellation)
  unfolding decode_reader
  decode_reader-opened arrow_ipc_codec given options cancellation reader =
      sym (bind_assoc (lift A (F.ipc_try_new reader)) _ _)
  decode_reader-opened parquet_codec given options cancellation reader = simp bind_assoc refl
  decode_reader-opened csv_codec given options cancellation reader = simp bind_assoc refl
  decode_reader-opened json_lines_codec given options cancellation reader = simp bind_assoc refl
  decode_reader-opened avro_codec given options cancellation reader =
      sym (bind_assoc (lift A (F.avro_build options.batch_size reader)) _ _)
