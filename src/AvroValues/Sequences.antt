-- ===== src/AvroValues/Sequences.antt =====
-- Sequences of pushes, and the flush after them.
use mathlib.Core.List.{append_assoc, append-nil}
use fsspec_data.Prelude.{
  ℕ, suc, ◌≡◌, refl, sym, ap, ◌∙◌, subst, Bool, Option, none, some, List, [], ◌∷◌, ◌++◌,
}
use fsspec_data.Arrow.{Arrow, done}
use fsspec_data.Stateful.{pure, >>=-done, ◌>>=◌}
use fsspec_data.Stream.Rows.{RowLaws}
use fsspec_data.Reader.{Bytes}
use fsspec_data.AvroValues.{AvroLibrary, AvroValueDecoder, Method, push, flush}
use fsspec_data.AvroValues.Contents.{DecoderLaws, FlushedAs, IsDecoder, contents}
use fsspec_data.AvroValues.Flushing.{flush-Flushed}
use fsspec_data.AvroValues.Pushing.{push-Grows}
use fsspec_data.AvroValues.Flushing.{flush-Flushed}
use fsspec_data.AvroValues.Values.{Between, Readable, push-Pushed}

module _ (A : Arrow) (L : AvroLibrary A) (laws : RowLaws A) (D : DecoderLaws A L laws) where
  -- Pushes of a list of values, and the flush after them.
  abbrev pub push_all : ℕ → List Bytes → Method A L (Option (Unit {0}))
  push_all fuel [] = pure (some tt)
  push_all fuel (value ∷ values) = push A L fuel value >>= pushed (push_all fuel values)
    where
      pushed : Method A L (Option (Unit {0})) → Option (Unit {0}) → Method A L (Option (Unit {0}))
      pushed rest none = pure none
      pushed rest (some u) = rest

  abbrev pub joined : List (List laws.Row) → List laws.Row
  joined [] = []
  joined (new ∷ news) = new ++ joined news

module _ (A : Arrow) (L : AvroLibrary A) (laws : RowLaws A) (D : DecoderLaws A L laws)
    (S : Between A L) where
  -- The values are read, and their rows are `news`, one list for each.
  abbrev pub AllReadable : Bool → List Bytes → List (List laws.Row) → Type 0
  AllReadable framed [] [] = Unit
  AllReadable framed [] (new ∷ news) = ⊥
  AllReadable framed (value ∷ values) [] = ⊥
  AllReadable framed (value ∷ values) (new ∷ news) =
      Readable A L laws D S framed value new × AllReadable framed values news

  push_all-Grows :
      (fuel : ℕ) (values : List Bytes) (news : List (List laws.Row)) (s : AvroValueDecoder A L)
      → S.ready s.decoder
      → AllReadable s.framed values news
      → (s' : AvroValueDecoder A L) × (push_all A L laws D (suc (suc fuel)) values s
          ≡ (done (some tt), s'))
        × (contents A L laws D s' ≡ contents A L laws D s ++ joined A L laws D news)
        × (IsDecoder A L laws D s → IsDecoder A L laws D s')
        × (L.schema s'.decoder ≡ L.schema s.decoder)
  push_all-Grows fuel [] [] s r h = (s, refl, sym (append-nil _), λ v. v, refl)
  push_all-Grows fuel [] (new ∷ news) s r h = elim h [ ]
  push_all-Grows fuel (value ∷ values) [] s r h = elim h [ ]
  push_all-Grows fuel (value ∷ values) (new ∷ news) s r h =
      let p = push-Pushed A L laws D S fuel value new s r h.0 in
      let g = push-Grows A L laws D (suc (suc fuel)) value s p.after p.returned in
      let (s', returned, more, valid, schema) =
        push_all-Grows fuel values news p.after p.is_ready
          (subst (λ b. AllReadable b values news) (sym p.same_framed) h.1) in
      (
        s',
        >>=-done (push A L (suc (suc fuel)) value) _ s p.returned ∙ returned,
        more
            ∙ ap (λ xs. xs ++ joined A L laws D news) p.more
            ∙ append_assoc (contents A L laws D s) new (joined A L laws D news),
        λ v. valid (g.valid v),
        schema ∙ g.same_schema,
      )

  -- From a valid decoder between two values, pushes of values that such a decoder reads, at once or, where
  -- the writer's schema changes, by their prefix before a flush and the rest after it, each with two units of fuel or more, and the
  -- flush after them return, as one batch of its schema, the rows it held and the rows of all the values
  -- in order, or none where there are none, and leave it holding none.
  pub push_all-flush :
      (fuel : ℕ) (values : List Bytes) (news : List (List laws.Row)) (s : AvroValueDecoder A L)
      → IsDecoder A L laws D s
      → S.ready s.decoder
      → AllReadable s.framed values news
      → (batch : Option A.RecordBatch) × (after : AvroValueDecoder A L) × ((push_all A L laws D
                (suc (suc fuel))
                values
              >>= λ r. flush A L)
            s
          ≡ (done batch, after))
        × FlushedAs A L laws
            (L.schema s.decoder)
            (contents A L laws D s ++ joined A L laws D news)
            batch
        × (contents A L laws D after ≡ [])
  push_all-flush fuel values news s v r h =
      let (s', returned, more, valid, schema) = push_all-Grows fuel values news s r h in
      let f = flush-Flushed A L laws D s' (valid v) in
      (
        f.batch,
        f.after,
        >>=-done (push_all A L laws D (suc (suc fuel)) values) (λ r. flush A L) s returned
            ∙ f.returned,
        rw (← more, ← schema) f.all_rows,
        f.emptied,
      )
