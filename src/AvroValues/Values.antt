-- ===== src/AvroValues/Values.antt =====
-- A push of one value.
use mathlib.Core.List.{append_assoc, append-nil}
use fsspec_data.Prelude.{
  ℕ, suc, ◌+◌, ◌-◌, ◌<◌, ◌≡◌, ◌≢◌, refl, sym, ap, ◌∙◌, subst, Bool, Bool-cases, inl, inr, true,
  false, ◌&&◌, ◌==◌, ltb, Option, some, List, [], ◌++◌, length, drop, arith,
}
use fsspec_data.Errors.{InterchangeError}
use fsspec_data.Arrow.{Arrow, Outcome, done}
use fsspec_data.Stateful.{continue, >>=-done, ◌>>=◌}
use fsspec_data.Stream.Rows.{RowLaws}
use fsspec_data.Stream.Collecting.{batch_rows}
use fsspec_data.Reader.{Bytes}
use fsspec_data.AvroValues.{
  AvroLibrary, AvroValueDecoder, carried, with_decoder, set_aside, read_on, push_rest, consumed_all,
  make_room, push,
}
use fsspec_data.AvroValues.Contents.{DecoderLaws, contents, Emptied, set_aside-Emptied}

module _ (A : Arrow) (L : AvroLibrary A) where
  -- The decoders of one reader's schema and one store of writers' schemas that stand between two values;
  -- a flush leaves a decoder there.
  pub record Between : Type 1 where
    pub ready : L.Decoder → Type 0
    pub stays :
        (d d' : L.Decoder) (batch : Option A.RecordBatch)
        → ready d
        → L.flush d ≡ (done batch, d')
        → ready d'

module _ (A : Arrow) (L : AvroLibrary A) (laws : RowLaws A) (D : DecoderLaws A L laws)
    (S : Between A L) where
  -- How a decoder reads a whole value of the rows `new`, from one end of a value to the next: at once;
  -- or, where it is framed and holds rows of another writer's schema, its prefix first, and the rest
  -- after a flush.
  pub data Reads (framed : Bool) (value : Bytes) (new : List laws.Row) (d : L.Decoder)
      : Type 0 where
    at_once :
        (d' : L.Decoder)
        → L.decode value d ≡ (done (length value), d')
        → D.held d' ≡ D.held d ++ new
        → S.ready d'
        → Reads framed value new d
    after_prefix :
        (prefix : ℕ) (d' : L.Decoder)
        → framed ≡ true
        → L.decode value d ≡ (done prefix, d')
        → prefix < length value
        → D.held d' ≡ D.held d
        → D.held d ≢ []
        → ((batch : Option A.RecordBatch) (d'' : L.Decoder)
            → L.flush d' ≡ (done batch, d'')
            → (d3 : L.Decoder) × (L.decode (drop prefix value) d''
                ≡ (done (length value - prefix), d3))
              × (D.held d3 ≡ new)
              × S.ready d3)
        → Reads framed value new d

  -- A decoder that stands between two values, and is not full, reads the value.
  abbrev pub Readable : Bool → Bytes → List laws.Row → Type 0
  Readable framed value new =
      (d : L.Decoder) → S.ready d → L.batch_is_full d ≡ false → Reads framed value new d

  -- What a push of such a value comes to.
  pub record Pushed (fuel : ℕ) (value : Bytes) (new : List laws.Row) (s : AvroValueDecoder A L)
      : Type 0 where
    pub after : AvroValueDecoder A L
    pub returned : push A L fuel value s ≡ (done (some tt), after)
    pub more : contents A L laws D after ≡ contents A L laws D s ++ new
    pub same_framed : after.framed ≡ s.framed
    pub is_ready : S.ready after.decoder

  abbrev Rest :
      ℕ
      → Bytes
      → AvroValueDecoder A L
      → Outcome (InterchangeError A.external) (Option (Unit {0})) × AvroValueDecoder A L
  Rest fuel value = with_decoder A L (L.decode value) >>= λ consumed.
      push_rest A L fuel value consumed >>= λ total. consumed_all A L value total

  -- A value is consumed when all its bytes are.
  consumed_lem :
      (fuel : ℕ) (value : Bytes) (s : AvroValueDecoder A L)
      → (push_rest A L (suc fuel) value (length value) >>= λ total. consumed_all A L value total) s
        ≡ (done (some tt), s)
  unfolding push_rest
  consumed_lem fuel value s =
      let over : (s.framed && ltb (length value) (length value)) ≡ false = ground arith in
      let all : (length value == length value) ≡ true = ground arith in
      let ended : push_rest A L (suc fuel) value (length value) s
          ≡ (done (some (length value)), s) =
        rw (push_rest, over) refl in
      >>=-done (push_rest A L (suc fuel) value (length value))
        (λ total. consumed_all A L value total) s ended
      ∙ rw all refl

  -- A round of the loop that finds rows to set aside and reads what is left of the value.
  round_lem :
      (fuel : ℕ) (value : Bytes) (prefix : ℕ) (s : AvroValueDecoder A L) (a : Emptied A L laws D s)
      (d : L.Decoder)
      → s.framed ≡ true
      → prefix < length value
      → a.found ≡ true
      → L.decode (drop prefix value) a.after.decoder ≡ (done (length value - prefix), d)
      → push_rest A L (suc fuel) value prefix s
        ≡ push_rest A L fuel value (length value) (record a.after { decoder = d })
  unfolding push_rest
  round_lem fuel value prefix s a d framed short found e =
      let more : (s.framed && ltb prefix (length value)) ≡ true = ground arith in
      let total : prefix + (length value - prefix) ≡ length value = omega (arith, short) in
      let step : push_rest A L (suc fuel) value prefix s
          ≡ (set_aside A L >>= read_on A L (push_rest A L fuel value) value prefix) s =
        rw (push_rest, more) refl in
      step
      ∙ >>=-done (set_aside A L) (read_on A L (push_rest A L fuel value) value prefix) s a.returned
      ∙ ap (λ b. read_on A L (push_rest A L fuel value) value prefix b a.after) found
      ∙ >>=-done (with_decoder A L (L.decode (drop prefix value)))
          (λ n. push_rest A L fuel value (prefix + n)) a.after (ap (carried A L a.after) e)
      ∙ ap (λ n. push_rest A L fuel value n (record a.after { decoder = d })) total

  -- The room that is made for a value.
  pub record HasSpace (s : AvroValueDecoder A L) : Type 0 where
    pub room : Bool
    pub after : AvroValueDecoder A L
    pub returned : make_room A L s ≡ (done room, after)
    pub same_contents : contents A L laws D after ≡ contents A L laws D s
    pub not_full : L.batch_is_full after.decoder ≡ false
    pub same_framed : after.framed ≡ s.framed
    pub is_ready : S.ready after.decoder

  make_room-HasSpace : (s : AvroValueDecoder A L) → S.ready s.decoder → HasSpace s
  unfolding make_room
  make_room-HasSpace s h = elim (Bool-cases (L.batch_is_full s.decoder)) [
    | inl e ↦
        let a = set_aside-Emptied A L laws D s in
        record {
          room = a.found;
          after = a.after;
          returned = rw (make_room, e) a.returned;
          same_contents = a.same_contents;
          not_full = D.not_full a.after.decoder a.emptied;
          same_framed = a.same_framed;
          is_ready = S.stays s.decoder a.after.decoder a.batch h a.flushed;
        }
    | inr e ↦ record {
      room = false;
      after = s;
      returned = rw (make_room, e) refl;
      same_contents = refl;
      not_full = e;
      same_framed = refl;
      is_ready = h;
    }
  ]

  -- The end of a push, from the decoder's state that a decode left.
  rest-after :
      (fuel : ℕ) (value : Bytes) (new : List laws.Row) (s : AvroValueDecoder A L)
      → Reads s.framed value new s.decoder
      → (s' : AvroValueDecoder A L) × (Rest (suc (suc fuel)) value s ≡ (done (some tt), s'))
        × (contents A L laws D s' ≡ contents A L laws D s ++ new)
        × (s'.framed ≡ s.framed)
        × S.ready s'.decoder
  rest-after fuel value new s (at_once d' e held is_ready) = (
    record s { decoder = d' },
    >>=-done (with_decoder A L (L.decode value))
          (λ consumed.
            push_rest A L (suc (suc fuel)) value consumed >>= λ total. consumed_all A L value total)
          s (ap (carried A L s) e)
        ∙ consumed_lem (suc fuel) value (record s { decoder = d' }),
    ap (λ xs. batch_rows A laws s.decoded ++ xs) held
        ∙ sym (append_assoc (batch_rows A laws s.decoded) (D.held s.decoder) new),
    refl,
    is_ready,
  )
  rest-after fuel value new s (after_prefix prefix d' framed e short held some_rows then_reads) =
      let s1 : AvroValueDecoder A L = record s { decoder = d' } in
      let a = set_aside-Emptied A L laws D s1 in
      let found : a.found ≡ true = elim (Bool-cases a.found) [
        | inl y ↦ y
        | inr n ↦ absurd (some_rows (sym held ∙ a.found_none n))
      ] in
      let (d3, e3, held3, is_ready) = then_reads a.batch a.after.decoder a.flushed in
      let set : batch_rows A laws a.after.decoded ≡ contents A L laws D s =
        sym (append-nil _)
        ∙ ap (λ xs. batch_rows A laws a.after.decoded ++ xs) (sym a.emptied)
        ∙ a.same_contents
        ∙ ap (λ xs. batch_rows A laws s.decoded ++ xs) held in
      (
        record a.after { decoder = d3 },
        >>=-done (with_decoder A L (L.decode value))
              (λ consumed. push_rest A L (suc (suc fuel)) value consumed >>= λ total.
                consumed_all A L value total)
              s (ap (carried A L s) e)
            ∙ ap (λ r. continue r.0 r.1 (consumed_all A L value))
                (round_lem (suc fuel) value prefix s1 a d3 framed short found e3)
            ∙ consumed_lem fuel value (record a.after { decoder = d3 }),
        ap (λ xs. batch_rows A laws a.after.decoded ++ xs) held3 ∙ ap (λ xs. xs ++ new) set,
        a.same_framed,
        is_ready,
      )

  -- A push of a value that the decoder reads, from between two values, takes it, and puts its rows behind those that are held.
  pub push-Pushed :
      (fuel : ℕ) (value : Bytes) (new : List laws.Row) (s : AvroValueDecoder A L)
      → S.ready s.decoder
      → Readable s.framed value new
      → Pushed (suc (suc fuel)) value new s
  unfolding push
  push-Pushed fuel value new s h reads =
      let r = make_room-HasSpace s h in
      let (after, returned, more, same, is_ready) = rest-after fuel value new r.after (
        subst (λ b. Reads b value new r.after.decoder) (sym r.same_framed)
          (reads r.after.decoder r.is_ready r.not_full)) in
      record {
        after = after;
        returned =
            >>=-done (make_room A L) (λ _. Rest (suc (suc fuel)) value) s r.returned ∙ returned;
        more = more ∙ ap (λ xs. xs ++ new) r.same_contents;
        same_framed = same ∙ r.same_framed;
        is_ready = is_ready;
      }
