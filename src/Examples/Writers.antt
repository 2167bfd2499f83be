-- ===== src/Examples/Writers.antt =====
-- Values of several writers, pushed to a framed decoder, and values that an encoder makes for it.
use fsspec_data.Prelude.{ℕ, ◌≡◌, refl, sym, ap, true, false, Option, some, List, [], ◌∷◌, map}
use fsspec_data.Arrow.{done}
use fsspec_data.Stateful.{done-injective, ◌>>=◌}
use fsspec_data.Reader.{Bytes}
use fsspec_data.AvroValues.{
  AvroValueDecoder, AvroValueEncoder, confluent, new_decoder, new_encoder, encode_values,
  framed_builder, set_writers, avro_arrow_schema, flush,
}
use fsspec_data.AvroValues.Contents.{FlushedAs, IsDecoder, contents}
use fsspec_data.AvroValues.Sequences.{AllReadable, push_all, push_all-flush}
use fsspec_data.AvroValues.RoundTrip.{Understands, encode_values-flush}
use fsspec_data.Examples.Tables.{Table, tables, tables-RowLaws}
use fsspec_data.Examples.Framing.{
  prefixed, decoded, rebuild, library, library-DecoderLaws, between, known-Readable,
}

-- Rows of the writer 3 are held, and values of the writers 3 and 5 come.
abbrev holding : AvroValueDecoder tables library
holding = record {
  decoder = record {
    known = 3 ∷ 5 ∷ [];
    active = 3;
    pending = false;
    bare = false;
    limit = 4;
    rows = 7 ∷ [];
  };
  framed = true;
  decoded = [];
}

holding-IsDecoder : IsDecoder tables library tables-RowLaws library-DecoderLaws holding
holding-IsDecoder = record { of_schema = tt; no_empty = tt }

abbrev two_writers : List Bytes
two_writers = (3 ∷ 8 ∷ []) ∷ (5 ∷ 9 ∷ []) ∷ (5 ∷ 10 ∷ []) ∷ []

abbrev two_writers_rows : List (List ℕ)
two_writers_rows = (8 ∷ []) ∷ (9 ∷ []) ∷ (10 ∷ []) ∷ []

-- The first value by the writer 5 is left after its number while rows of the writer 3 are held.
left_off :
    decoded (5 ∷ 9 ∷ []) holding.decoder
    ≡ (done 1, record holding.decoder { active = 5; pending = true })
left_off = refl

push_all-flush_example :
    (batch : Option Table) × (after : AvroValueDecoder tables library) × ((push_all tables library
            tables-RowLaws library-DecoderLaws 2 two_writers
          >>= λ r. flush tables library)
        holding
      ≡ (done batch, after))
    × FlushedAs tables library tables-RowLaws 0 (7 ∷ 8 ∷ 9 ∷ 10 ∷ []) batch
    × (contents tables library tables-RowLaws library-DecoderLaws after ≡ [])
push_all-flush_example =
    push_all-flush tables library tables-RowLaws library-DecoderLaws (between (3 ∷ 5 ∷ [])) 0
      two_writers two_writers_rows holding holding-IsDecoder (refl, refl, refl)
      (
        known-Readable (3 ∷ 5 ∷ []) 3 8 refl,
        (known-Readable (3 ∷ 5 ∷ []) 5 9 refl, (known-Readable (3 ∷ 5 ∷ []) 5 10 refl, tt)),
      )

abbrev encoder : AvroValueEncoder tables library
encoder = record { encoder = (3 ∷ [], []); schema = 0 }

made_encoder : new_encoder tables library "schema" (some 3) ≡ done encoder
unfolding new_encoder avro_arrow_schema new_decoder framed_builder
made_encoder = refl

abbrev new_one : AvroValueDecoder tables library
new_one = record {
  decoder = record {
    known = 3 ∷ [];
    active = 0;
    pending = false;
    bare = false;
    limit = 15;
    rows = [];
  };
  framed = true;
  decoded = [];
}

made : new_decoder tables library "schema" (confluent ((3, "schema") ∷ [])) 16 ≡ done new_one
unfolding new_decoder framed_builder set_writers
made = refl

abbrev values : List Bytes
values = (3 ∷ 10 ∷ []) ∷ (3 ∷ 11 ∷ []) ∷ []

encoded : encode_values tables library (8, 10 ∷ 11 ∷ []) encoder ≡ (done values, encoder)
unfolding encode_values
encoded = refl

abbrev one : ℕ → List ℕ
one row = row ∷ []

rows_readable :
    (rows : List ℕ)
    → AllReadable tables library tables-RowLaws library-DecoderLaws
        (between (3 ∷ []))
        true
        (map (prefixed (3 ∷ [])) rows)
        (map one rows)
rows_readable [] = tt
rows_readable (row ∷ rows) = (known-Readable (3 ∷ []) 3 row refl, rows_readable rows)

understood :
    Understands tables library tables-RowLaws library-DecoderLaws
      (between (3 ∷ []))
      true
      0
      (3 ∷ [], [])
understood batch encoder' of_schema h = rw (sym (ap (λ r. r.1) h)) (rows_readable batch.1)

rebuild-schema :
    (schema : ℕ) (columns : List (List ℕ)) (batch : Table)
    → rebuild schema columns ≡ done batch
    → batch.0 ≡ schema
rebuild-schema schema (c ∷ []) batch h = ap (λ b. b.0) (sym (done-injective _ batch h))
rebuild-schema schema [] batch h = cc
rebuild-schema schema (c ∷ e ∷ columns) batch h = cc

encode_values-flush_example :
    (rebuilt : Table) × (decoded : Option Table) × (after : AvroValueDecoder tables library)
    × (rebuild 0 ((10 ∷ 11 ∷ []) ∷ []) ≡ done rebuilt)
    × ((push_all tables library tables-RowLaws library-DecoderLaws 2 values >>= λ r.
            flush tables library)
          new_one
        ≡ (done decoded, after))
    × FlushedAs tables library tables-RowLaws 0 rebuilt.1 decoded
encode_values-flush_example =
    encode_values-flush tables library tables-RowLaws library-DecoderLaws (between (3 ∷ []))
      (λ b d h. ap (λ d. d.rows) (sym (done-injective _ _ h))) rebuild-schema "schema"
      (confluent ((3, "schema") ∷ [])) 16 0 new_one (8, 10 ∷ 11 ∷ []) encoder encoder values made
      encoded (refl, refl, refl) understood
