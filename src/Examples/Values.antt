-- ===== src/Examples/Values.antt =====
-- A decoder of Avro values whose bytes are rows, and which is full with two of them.
use fsspec_data.Prelude.{
  map, ℕ, ◌≡◌, refl, sym, ap, true, ltb, Option, none, some, List, [], ◌∷◌, ◌++◌, length, arith,
}
use fsspec_data.Arrow.{failed, Outcome, done}
use fsspec_data.Stateful.{done-injective}
use fsspec_data.Stream.Collecting.{batch_rows}
use fsspec_data.Reader.{Bytes}
use fsspec_data.AvroValues.{AvroLibrary, AvroValueDecoder, push, make_room, set_aside, push_rest}
use fsspec_data.AvroValues.Contents.{DecoderLaws, FlushedAs, IsDecoder}
use fsspec_data.AvroValues.Flushing.{Flushed, flush-Flushed}
use fsspec_data.AvroValues.Pushing.{Grows, push-Grows}
use fsspec_data.AvroValues.Ends.{Ended, push-Ended}
use fsspec_data.Examples.Tables.{Table, tables, tables-RowLaws}

abbrev flushed : List ℕ → Outcome ℕ (Option Table) × List ℕ
flushed [] = (done none, [])
flushed (row ∷ rows) = (done (some (0, row ∷ rows)), [])

abbrev one : ℕ → Bytes
one row = row ∷ []

abbrev rebuild : ℕ → List (List ℕ) → Outcome ℕ Table
rebuild schema (c ∷ []) = done (schema, c)
rebuild schema _ = failed 6

abbrev library : AvroLibrary tables
library = record {
  Fault = ℕ;
  to_arrow = λ e. e;
  bytes_after_datum = λ n. n;
  Decoder = List ℕ;
  schema = λ d. 0;
  batch_is_full = λ d. ltb 1 (length d);
  decode = λ value d. (done (length value), d ++ value);
  flush = flushed;
  Store = Unit;
  Fingerprint = Unit;
  new_store = tt;
  new_id_store = tt;
  register = λ schema s. (done tt, s);
  set_id = λ id schema s. (done tt, s);
  Builder = Unit;
  builder = λ n schema. tt;
  with_writer_schema_store = λ s b. b;
  with_active_fingerprint = λ f b. b;
  unframed_datum = λ b. b;
  build_decoder = λ b. done [];
  concat_batches = λ schema bs. done (schema, batch_rows tables tables-RowLaws bs);
  Encoder = List Bytes;
  with_avro_schema = λ text schema. schema;
  build_soe_encoder = λ schema id. done [];
  build_binary_encoder = λ schema. done [];
  encode = λ b e. (done tt, e ++ map one b.1);
  flush_rows = λ e. (e, []);
  try_new = rebuild;
}

flushed-FlushedAs :
    (d : List ℕ)
    → (batch : Option Table) × (d' : List ℕ) × (flushed d ≡ (done batch, d'))
      × FlushedAs tables library tables-RowLaws 0 d batch
      × (d' ≡ [])
      × (◌≡◌ {A = ℕ} 0 0)
flushed-FlushedAs [] = (none, [], refl, refl, refl, refl)
flushed-FlushedAs (row ∷ rows) = (some (0, row ∷ rows), [], refl, (refl, refl, λ q. cc), refl, refl)

abbrev library-DecoderLaws : DecoderLaws tables library tables-RowLaws
library-DecoderLaws = record {
  held = λ d. d;
  flushes = flushed-FlushedAs;
  not_full = λ d h. ap (λ rows. ltb 1 (length rows)) h;
  decodes = λ value d d' consumed h.
      let same = ap (λ r. r.1) (sym h) in
      let all : length value ≡ consumed =
        done-injective (length value) consumed (ap (λ r. r.0) h) in
      (value, same, refl, omega (arith, all), λ z p. absurd (omega (arith, all, z, p)));
  concats = λ schema bs h. ((schema, batch_rows tables tables-RowLaws bs), refl, refl, refl);
}

abbrev decoder : AvroValueDecoder tables library
decoder = record { decoder = 3 ∷ 4 ∷ []; framed = true; decoded = (0, 1 ∷ 2 ∷ []) ∷ [] }

decoder-IsDecoder : IsDecoder tables library tables-RowLaws library-DecoderLaws decoder
decoder-IsDecoder = record { of_schema = (refl, tt); no_empty = (λ q. cc, tt) }

flush-Flushed_example : Flushed tables library tables-RowLaws library-DecoderLaws decoder
flush-Flushed_example =
    flush-Flushed tables library tables-RowLaws library-DecoderLaws decoder decoder-IsDecoder

abbrev after_push : AvroValueDecoder tables library
after_push = record {
  decoder = 5 ∷ [];
  framed = true;
  decoded = (0, 1 ∷ 2 ∷ []) ∷ (0, 3 ∷ 4 ∷ []) ∷ [];
}

pushed : push tables library 4 (5 ∷ []) decoder ≡ (done (some tt), after_push)
unfolding push make_room set_aside push_rest
pushed = refl

push-Grows_example : Grows tables library tables-RowLaws library-DecoderLaws decoder after_push
push-Grows_example =
    push-Grows tables library tables-RowLaws library-DecoderLaws 4 (5 ∷ []) decoder after_push
      pushed

push-Ended_example :
    Ended tables library tables-RowLaws library-DecoderLaws
      (push tables library 3 (5 ∷ []) decoder).0
push-Ended_example =
    push-Ended tables library tables-RowLaws library-DecoderLaws (5 ∷ []) decoder 3 (omega arith)
