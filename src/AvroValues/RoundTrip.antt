-- ===== src/AvroValues/RoundTrip.antt =====
-- Encoded values, pushed to a new decoder and flushed.
use fsspec_data.Prelude.{
  ℕ, suc, String, ◌≡◌, refl, sym, ap, ◌∙◌, subst, inl, inr, Bool, Option, List, [], ◌∷◌, ◌++◌, map,
}
use fsspec_data.Arrow.{Arrow, done}
use fsspec_data.Stateful.{Outcome-cases, done-injective, ◌>>=◌}
use fsspec_data.Stream.Rows.{RowLaws}
use fsspec_data.Reader.{Bytes}
use fsspec_data.AvroValues.{
  AvroLibrary, AvroFraming, AvroValueDecoder, AvroValueEncoder, framed_builder, is_framed,
  new_decoder, encode_values, flush,
}
use fsspec_data.AvroValues.Contents.{DecoderLaws, FlushedAs, IsDecoder, contents}
use fsspec_data.AvroValues.Values.{Between}
use fsspec_data.AvroValues.Sequences.{AllReadable, joined, push_all, push_all-flush}

module _ (A : Arrow) (L : AvroLibrary A) (laws : RowLaws A) (D : DecoderLaws A L laws) where
  -- Documented behaviour: a decoder that has just been built holds no rows.
  abbrev pub BuiltEmpty : Type 0
  BuiltEmpty =
      (builder : L.Builder) (d : L.Decoder) → L.build_decoder builder ≡ done d → D.held d ≡ []

  -- A new decoder holds nothing, and is framed as it was asked to be.
  new_decoder-done :
      BuiltEmpty
      → (schema : String) (framing : AvroFraming) (batch_size : ℕ) (s : AvroValueDecoder A L)
      → new_decoder A L schema framing batch_size ≡ done s
      → (s.decoded ≡ []) × (D.held s.decoder ≡ []) × (s.framed ≡ is_framed A L framing)
  unfolding new_decoder
  new_decoder-done empty schema framing batch_size s h =
      elim (Outcome-cases (framed_builder A L framing schema (L.builder batch_size schema))) [
        | inr (e, q) ↦ cc (rw (new_decoder, q) at h)
        | inl (builder, q) ↦ elim (Outcome-cases (L.build_decoder builder)) [
          | inr (e, r) ↦ cc (rw (new_decoder, q, r) at h)
          | inl (d, r) ↦
              let same : record { decoder = d; framed = is_framed A L framing; decoded = [] } ≡ s =
                done-injective _ s (rw (new_decoder, q, r) at h) in
              (
                ap (λ t. t.decoded) (sym same),
                ap (λ t. D.held t.decoder) (sym same) ∙ empty builder d r,
                ap (λ t. t.framed) (sym same),
              )
        ]
      ]

  abbrev pub single : laws.Row → List laws.Row
  single row = row ∷ []

  joined-single : (rows : List laws.Row) → joined A L laws D (map single rows) ≡ rows
  joined-single [] = refl
  joined-single (row ∷ rows) = ap (λ xs. row ∷ xs) (joined-single rows)

  -- Documented behaviour: `RecordBatch::try_new` makes a batch of the schema that it is given.
  abbrev pub TriesSchema : Type 0
  TriesSchema =
      (schema : A.Schema) (columns : List A.Array) (batch : A.RecordBatch)
      → L.try_new schema columns ≡ done batch
      → A.schema batch ≡ schema

  encode_values-done :
      (batch : A.RecordBatch) (e e' : AvroValueEncoder A L) (values : List Bytes)
      → encode_values A L batch e ≡ (done values, e')
      → (rebuilt : A.RecordBatch) × (encoder' : L.Encoder) × (L.try_new e.schema (A.columns batch)
          ≡ done rebuilt)
        × (L.encode rebuilt e.encoder ≡ (done tt, encoder'))
        × ((L.flush_rows encoder').0 ≡ values)
  unfolding encode_values
  encode_values-done batch e e' values h =
      elim (Outcome-cases (L.try_new e.schema (A.columns batch))) [
        | inr (x, q) ↦ cc (ap (λ r. r.0) (rw (encode_values, q) at h))
        | inl (rebuilt, q) ↦ elim (Outcome-cases (L.encode rebuilt e.encoder).0) [
          | inr (x, r) ↦ cc (ap (λ r. r.0) (rw (encode_values, q, r) at h))
          | inl (u, r) ↦ (
            rebuilt,
            (L.encode rebuilt e.encoder).1,
            q,
            ap (λ o. (o, (L.encode rebuilt e.encoder).1)) r,
            done-injective _ values (ap (λ r. r.0) (rw (encode_values, q, r) at h)),
          )
        ]
      ]

module _ (A : Arrow) (L : AvroLibrary A) (laws : RowLaws A) (D : DecoderLaws A L laws)
    (S : Between A L) where
  -- What the encoder of the schema puts out for a batch of it, a decoder between two values reads: a
  -- value for each row, in order.
  abbrev pub Understands : Bool → A.Schema → L.Encoder → Type 0
  Understands framed schema encoder =
      (batch : A.RecordBatch) (encoder' : L.Encoder)
      → A.schema batch ≡ schema
      → L.encode batch encoder ≡ (done tt, encoder')
      → AllReadable A L laws D S framed (L.flush_rows encoder').0
          (map (single A L laws D) (laws.rows batch))

  pub encode_values-flush :
      BuiltEmpty A L laws D
      → TriesSchema A L laws D
      → (schema : String) (framing : AvroFraming) (batch_size fuel : ℕ) (s : AvroValueDecoder A L)
        (batch : A.RecordBatch) (e e' : AvroValueEncoder A L) (values : List Bytes)
      → new_decoder A L schema framing batch_size ≡ done s
      → encode_values A L batch e ≡ (done values, e')
      → S.ready s.decoder
      → Understands (is_framed A L framing) e.schema e.encoder
      → (rebuilt : A.RecordBatch) × (decoded : Option A.RecordBatch) × (after : AvroValueDecoder A
          L)
        × (L.try_new e.schema (A.columns batch) ≡ done rebuilt)
        × ((push_all A L laws D (suc (suc fuel)) values >>= λ r. flush A L) s
            ≡ (done decoded, after))
        × FlushedAs A L laws (L.schema s.decoder) (laws.rows rebuilt) decoded
  encode_values-flush empty tries schema framing batch_size fuel s batch e e' values built encoded
        ready reads =
      let (none_aside, none_held, framed) =
        new_decoder-done A L laws D empty schema framing batch_size s built in
      let (rebuilt, encoder', made, ran, same) =
        encode_values-done A L laws D batch e e' values encoded in
      let valid : IsDecoder A L laws D s = record {
        of_schema = rw none_aside tt;
        no_empty = rw none_aside tt;
      } in
      let nothing : contents A L laws D s ≡ [] = rw (none_aside, none_held) refl in
      let readable : AllReadable A L laws D S s.framed values
          (map (single A L laws D) (laws.rows rebuilt)) =
        rw (framed, ← same)
          (reads rebuilt encoder' (tries e.schema (A.columns batch) rebuilt made) ran) in
      let (decoded, after, returned, all_rows, emptied) =
        push_all-flush A L laws D S fuel values (map (single A L laws D) (laws.rows rebuilt)) s
          valid ready readable in
      let rows : (contents A L laws D s
            ++ joined A L laws D (map (single A L laws D) (laws.rows rebuilt)))
          ≡ laws.rows rebuilt =
        ap (λ xs. xs ++ joined A L laws D (map (single A L laws D) (laws.rows rebuilt))) nothing
        ∙ joined-single A L laws D (laws.rows rebuilt) in
      (
        rebuilt,
        decoded,
        after,
        made,
        returned,
        subst (λ rows. FlushedAs A L laws (L.schema s.decoder) rows decoded) rows all_rows,
      )
