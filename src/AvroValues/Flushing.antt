-- ===== src/AvroValues/Flushing.antt =====
-- `flush` returns all that was pushed.
use mathlib.Core.List.{append-nil}
use fsspec_data.Prelude.{
  subst, ◌≡◌, ◌≢◌, refl, sym, ap, ◌∙◌, Option, none, some, List, [], ◌∷◌, ◌++◌, All,
}
use fsspec_data.Arrow.{Arrow, done}
use fsspec_data.Stateful.{>>=-done}
use fsspec_data.Stream.Rows.{RowLaws}
use fsspec_data.Stream.Collecting.{batch_rows}
use fsspec_data.AvroValues.{AvroLibrary, AvroValueDecoder, set_aside, take_decoded, flush}
use fsspec_data.AvroValues.Contents.{
  DecoderLaws, FlushedAs, IsDecoder, contents, Emptied, set_aside-Emptied,
}

module _ (A : Arrow) (L : AvroLibrary A) (laws : RowLaws A) (D : DecoderLaws A L laws) where
  append-nil_left : (xs ys : List laws.Row) → xs ++ ys ≡ [] → xs ≡ []
  append-nil_left [] ys h = refl
  append-nil_left (x ∷ xs) ys h = cc

  -- What a flush comes to.
  pub record Flushed (s : AvroValueDecoder A L) : Type 0 where
    pub batch : Option A.RecordBatch
    pub after : AvroValueDecoder A L
    pub returned : flush A L s ≡ (done batch, after)
    pub all_rows : FlushedAs A L laws (L.schema s.decoder) (contents A L laws D s) batch
    pub emptied : contents A L laws D after ≡ []
    pub valid : IsDecoder A L laws D after
    pub same_framed : after.framed ≡ s.framed
    pub same_schema : L.schema after.decoder ≡ L.schema s.decoder

  taken :
      (s : AvroValueDecoder A L) (b joined : A.RecordBatch) (bs : List A.RecordBatch)
      → L.concat_batches (L.schema s.decoder) (b ∷ bs) ≡ done joined
      → take_decoded A L (b ∷ bs) s ≡ (done (some joined), record s { decoded = [] })
  taken s b joined bs made = rw (take_decoded, made) refl

  take-Flushed :
      (s : AvroValueDecoder A L) (a : Emptied A L laws D s)
      → IsDecoder A L laws D s
      → (batches : List A.RecordBatch) → a.after.decoded ≡ batches
      → Flushed s
  unfolding flush
  take-Flushed s a v [] e = record {
    batch = none;
    after = a.after;
    returned = >>=-done (set_aside A L) _ s a.returned ∙ rw e refl;
    all_rows = sym a.same_contents ∙ rw (e, a.emptied) refl;
    emptied = rw (e, a.emptied) refl;
    valid = a.valid v;
    same_framed = a.same_framed;
    same_schema = a.same_schema;
  }
  take-Flushed s a v (b ∷ bs) e =
      let w = a.valid v in
      let (joined, made, rows, schema) =
        D.concats (L.schema a.after.decoder) (b ∷ bs)
          (subst (All (λ b. A.schema b ≡ L.schema a.after.decoder)) e w.of_schema) in
      let all : contents A L laws D s ≡ batch_rows A laws (b ∷ bs) =
        sym a.same_contents ∙ rw (e, a.emptied) (append-nil _) in
      let some_rows : All (λ b. laws.rows b ≢ []) (b ∷ bs) =
        subst (All (λ b. laws.rows b ≢ [])) e w.no_empty in
      record {
        batch = some joined;
        after = record a.after { decoded = [] };
        returned =
            >>=-done (set_aside A L) _ s a.returned
            ∙ ap (λ bs. take_decoded A L bs a.after) e
            ∙ taken a.after b joined bs made;
        all_rows = (
          rows ∙ sym all,
          schema ∙ a.same_schema,
          λ q. some_rows.0 (append-nil_left (laws.rows b) (batch_rows A laws bs) (sym all ∙ q)),
        );
        emptied = a.emptied;
        valid = record { of_schema = tt; no_empty = tt };
        same_framed = a.same_framed;
        same_schema = a.same_schema;
      }

  -- A flush of a decoder whose batches set aside are of its schema and not empty returns, as one batch
  -- of its schema, all the rows it holds, or none where it holds none, and leaves it with none.
  pub flush-Flushed : (s : AvroValueDecoder A L) → IsDecoder A L laws D s → Flushed s
  flush-Flushed s v =
      let a = set_aside-Emptied A L laws D s in take-Flushed s a v a.after.decoded refl
