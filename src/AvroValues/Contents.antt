-- ===== src/AvroValues/Contents.antt =====
-- The rows that a value decoder holds.
use mathlib.Core.List.{append_assoc, append-nil}
use fsspec_data.Prelude.{
  ℕ, ◌≤◌, ◌<◌, ◌≡◌, ◌≢◌, refl, sym, ap, ◌∙◌, Bool, true, false, Option, none, some, List, [], ◌∷◌,
  ◌++◌, length, All,
}
use fsspec_data.Arrow.{Arrow, done}
use fsspec_data.Stream.Rows.{RowLaws}
use fsspec_data.Stream.Collecting.{batch_rows}
use fsspec_data.Reader.{Bytes}
use fsspec_data.Stateful.{>>=-done}
use fsspec_data.AvroValues.{AvroLibrary, AvroValueDecoder, carried, with_decoder, keep, set_aside}

module _ (A : Arrow) (L : AvroLibrary A) (laws : RowLaws A) where
  -- What a flush of the decoder returns for the rows that it holds.
  abbrev pub FlushedAs : A.Schema → List laws.Row → Option A.RecordBatch → Type 0
  FlushedAs schema rows none = rows ≡ []
  FlushedAs schema rows (some b) = (laws.rows b ≡ rows) × (A.schema b ≡ schema) × (rows ≢ [])

  -- Documented behaviour of the decoder of arrow-avro: it holds the rows it has decoded until they are
  -- flushed, in batches of its schema, is not full while it holds none, and reads no more bytes than it
  -- is given; what is left of a value unread may be read later.
  pub record DecoderLaws : Type 0 where
    pub held : L.Decoder → List laws.Row
    pub flushes :
        (d : L.Decoder)
        → (batch : Option A.RecordBatch) × (d' : L.Decoder) × (L.flush d ≡ (done batch, d'))
          × FlushedAs (L.schema d) (held d) batch
          × (held d' ≡ [])
          × (L.schema d' ≡ L.schema d)
    pub not_full : (d : L.Decoder) → held d ≡ [] → L.batch_is_full d ≡ false
    pub decodes :
        (value : Bytes) (d d' : L.Decoder) (consumed : ℕ)
        → L.decode value d ≡ (done consumed, d')
        → (new : List laws.Row) × (held d' ≡ held d ++ new)
          × (L.schema d' ≡ L.schema d)
          × (consumed ≤ length value)
          × (consumed ≡ 0 → 0 < length value → new ≡ [])
    pub concats :
        (schema : A.Schema) (batches : List A.RecordBatch)
        → All (λ b. A.schema b ≡ schema) batches
        → (b : A.RecordBatch) × (L.concat_batches schema batches ≡ done b)
          × (laws.rows b ≡ batch_rows A laws batches)
          × (A.schema b ≡ schema)

  module _ (D : DecoderLaws) where
    -- The batches set aside are of the decoder's schema, and none is empty.
    pub record IsDecoder (s : AvroValueDecoder A L) : Type 0 where
      pub of_schema : All (λ b. A.schema b ≡ L.schema s.decoder) s.decoded
      pub no_empty : All (λ b. laws.rows b ≢ []) s.decoded

    abbrev pub contents : AvroValueDecoder A L → List laws.Row
    contents s = batch_rows A laws s.decoded ++ D.held s.decoder

    batch_rows-append :
        (bs cs : List A.RecordBatch)
        → batch_rows A laws (bs ++ cs) ≡ batch_rows A laws bs ++ batch_rows A laws cs
    batch_rows-append [] cs = refl
    batch_rows-append (b ∷ bs) cs =
        ap (λ xs. laws.rows b ++ xs) (batch_rows-append bs cs)
        ∙ sym (append_assoc (laws.rows b) _ _)

    All-snoc :
        (P : A.RecordBatch → Type 0) (bs : List A.RecordBatch) (b : A.RecordBatch)
        → All P bs
        → P b
        → All P (bs ++ b ∷ [])
    All-snoc P [] b h p = (p, tt)
    All-snoc P (c ∷ bs) b h p = (h.0, All-snoc P bs b h.1 p)

    -- What `set_aside` does: the decoder holds nothing more, and nothing is lost.
    pub record Emptied (s : AvroValueDecoder A L) : Type 0 where
      pub found : Bool
      pub after : AvroValueDecoder A L
      pub returned : set_aside A L s ≡ (done found, after)
      pub batch : Option A.RecordBatch
      pub flushed : L.flush s.decoder ≡ (done batch, after.decoder)
      pub emptied : D.held after.decoder ≡ []
      pub same_contents : contents after ≡ contents s
      pub valid : IsDecoder s → IsDecoder after
      pub same_framed : after.framed ≡ s.framed
      pub same_schema : L.schema after.decoder ≡ L.schema s.decoder
      pub found_some : found ≡ true → D.held s.decoder ≢ []
      pub found_none : found ≡ false → D.held s.decoder ≡ []

    pub set_aside-Emptied : (s : AvroValueDecoder A L) → Emptied s
    unfolding set_aside
    set_aside-Emptied s = go (D.flushes s.decoder)
      where
        go :
            (batch : Option A.RecordBatch) × (d' : L.Decoder) × (L.flush s.decoder
                ≡ (done batch, d'))
              × FlushedAs (L.schema s.decoder) (D.held s.decoder) batch
              × (D.held d' ≡ [])
              × (L.schema d' ≡ L.schema s.decoder)
            → Emptied s
        go (none, d', e, h, z, k) = record {
          found = false;
          after = record s { decoder = d' };
          returned = >>=-done (with_decoder A L L.flush) (keep A L) s (ap (carried A L s) e);
          batch = none;
          flushed = e;
          emptied = z;
          same_contents = ap (λ xs. batch_rows A laws s.decoded ++ xs) (z ∙ sym h);
          valid = λ v. record { of_schema = rw k v.of_schema; no_empty = v.no_empty };
          same_framed = refl;
          same_schema = k;
          found_some = λ q. cc;
          found_none = λ q. h;
        }
        go (some b, d', e, (rows, schema, some_rows), z, k) = record {
          found = true;
          after = record s { decoder = d'; decoded = s.decoded ++ b ∷ [] };
          returned = >>=-done (with_decoder A L L.flush) (keep A L) s (ap (carried A L s) e);
          batch = some b;
          flushed = e;
          emptied = z;
          same_contents =
              ap (λ xs. batch_rows A laws (s.decoded ++ b ∷ []) ++ xs) z
              ∙ append-nil _
              ∙ batch_rows-append s.decoded (b ∷ [])
              ∙ ap (λ xs. batch_rows A laws s.decoded ++ xs) (append-nil _ ∙ rows);
          valid = λ v. record {
            of_schema = All-snoc _ s.decoded b (rw k v.of_schema) (schema ∙ sym k);
            no_empty = All-snoc _ s.decoded b v.no_empty λ q. some_rows (sym rows ∙ q);
          };
          same_framed = refl;
          same_schema = k;
          found_some = λ q. some_rows;
          found_none = λ q. cc;
        }
