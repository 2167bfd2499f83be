-- ===== src/AvroValues/Pushing.antt =====
-- `push` ends, and loses none of the rows that a decoder holds.
use mathlib.Core.List.{append_assoc, append-nil}
use fsspec_data.Prelude.{
  ℕ, zero, suc, ◌+◌, ◌≡◌, refl, sym, ap, ◌∙◌, subst, Bool, Bool-cases, inl, inr, true, false, ◌&&◌,
  ◌==◌, ltb, Option, none, some, List, [], ◌++◌, length, drop, arith,
}
use fsspec_data.Arrow.{Arrow, Outcome, done, failed}
use fsspec_data.Stateful.{M, done->>=}
use fsspec_data.Stream.Rows.{RowLaws}
use fsspec_data.Stream.Collecting.{batch_rows}
use fsspec_data.Reader.{Bytes}
use fsspec_data.AvroValues.{
  AvroLibrary, AvroValueDecoder, Method, carried, with_decoder, set_aside, read_on, push_rest,
  consumed_all, make_room, push,
}
use fsspec_data.AvroValues.Contents.{DecoderLaws, IsDecoder, contents, set_aside-Emptied}

module _ (A : Arrow) (L : AvroLibrary A) where
  pub with_decoder-done :
      {B : Type 0} (m : M L.Decoder L.Fault B) (s s' : AvroValueDecoder A L) {b : B}
      → with_decoder A L m s ≡ (done b, s')
      → (d : L.Decoder) × (m s.decoder ≡ (done b, d)) × (record s { decoder = d } ≡ s')
  with_decoder-done {B} m s s' {b} h = go (m s.decoder) refl h
    where
      go :
          (r : Outcome L.Fault B × L.Decoder)
          → m s.decoder ≡ r
          → carried A L s r ≡ (done b, s')
          → (d : L.Decoder) × (m s.decoder ≡ (done b, d)) × (record s { decoder = d } ≡ s')
      go (done c, d) e h = (d, e ∙ (cc (ap (λ r. r.0) h)), ap (λ r. r.1) h)
      go (failed x, d) e h = cc

  module _ (laws : RowLaws A) (D : DecoderLaws A L laws) where
    -- The decoder holds what it held, and perhaps more; it stays valid.
    pub record Grows (s s' : AvroValueDecoder A L) : Type 0 where
      pub new : List laws.Row
      pub more : contents A L laws D s' ≡ contents A L laws D s ++ new
      pub valid : IsDecoder A L laws D s → IsDecoder A L laws D s'
      pub same_framed : s'.framed ≡ s.framed
      pub same_schema : L.schema s'.decoder ≡ L.schema s.decoder

    Grows-self : (s : AvroValueDecoder A L) → Grows s s
    Grows-self s = record {
      new = [];
      more = sym (append-nil _);
      valid = λ v. v;
      same_framed = refl;
      same_schema = refl;
    }

    Grows-trans : (s t u : AvroValueDecoder A L) → Grows s t → Grows t u → Grows s u
    Grows-trans s t u g h = record {
      new = g.new ++ h.new;
      more = h.more ∙ ap (λ xs. xs ++ h.new) g.more ∙ append_assoc _ g.new h.new;
      valid = λ v. h.valid (g.valid v);
      same_framed = h.same_framed ∙ g.same_framed;
      same_schema = h.same_schema ∙ g.same_schema;
    }

    set_aside-Grows :
        (s s' : AvroValueDecoder A L) {found : Bool}
        → set_aside A L s ≡ (done found, s')
        → Grows s s'
    set_aside-Grows s s' h =
        let a = set_aside-Emptied A L laws D s in
        let same : a.after ≡ s' = ap (λ r. r.1) (sym a.returned ∙ h) in
        subst (Grows s) same (record {
          new = [];
          more = a.same_contents ∙ sym (append-nil _);
          valid = a.valid;
          same_framed = a.same_framed;
          same_schema = a.same_schema;
        })

    decode-Grows :
        (value : Bytes) (s s' : AvroValueDecoder A L) {consumed : ℕ}
        → with_decoder A L (L.decode value) s ≡ (done consumed, s')
        → Grows s s'
    decode-Grows value s s' {consumed} h =
        let (d, e, same) = with_decoder-done (L.decode value) s s' h in
        let (new, held, schema, bound, progress) = D.decodes value s.decoder d consumed e in
        subst (Grows s) same (record {
          new = new;
          more =
              ap (λ xs. batch_rows A laws s.decoded ++ xs) held
              ∙ sym (append_assoc (batch_rows A laws s.decoded) (D.held s.decoder) new);
          valid = λ v. record { of_schema = rw schema v.of_schema; no_empty = v.no_empty };
          same_framed = refl;
          same_schema = schema;
        })

    read_on-Grows :
        (rest : ℕ → Method A L (Option ℕ)) (value : Bytes) (consumed : ℕ) (found : Bool)
        (s s' : AvroValueDecoder A L) {total : Option ℕ}
        → ((n : ℕ) (t : AvroValueDecoder A L) → rest n t ≡ (done total, s') → Grows t s')
        → read_on A L rest value consumed found s ≡ (done total, s')
        → Grows s s'
    read_on-Grows rest value consumed false s s' ih h =
        subst (Grows s) (ap (λ r. r.1) h) (Grows-self s)
    read_on-Grows rest value consumed true s s' ih h =
        let (more, t, decoded, h1) =
          done->>= (with_decoder A L (L.decode (drop consumed value))) _ s h in
        Grows-trans s t s' (decode-Grows (drop consumed value) s t decoded)
          (ih (consumed + more) t h1)

    -- The loop of `push`.
    push_rest-Grows :
        (fuel : ℕ) (value : Bytes) (consumed : ℕ) (s s' : AvroValueDecoder A L) {total : Option ℕ}
        → push_rest A L fuel value consumed s ≡ (done total, s')
        → Grows s s'
    unfolding push_rest
    push_rest-Grows zero value consumed s s' h = subst (Grows s) (ap (λ r. r.1) h) (Grows-self s)
    push_rest-Grows (suc fuel) value consumed s s' h =
        elim (Bool-cases (s.framed && ltb consumed (length value))) [
          | inr e ↦ subst (Grows s) (ap (λ r. r.1) (rw (push_rest, e) at h)) (Grows-self s)
          | inl e ↦
              let (found, t, aside, h1) = done->>= (set_aside A L) _ s (rw (push_rest, e) at h) in
              Grows-trans s t s' (set_aside-Grows s t aside) (
                read_on-Grows (push_rest A L fuel value) value consumed found t s'
                  (λ n u. push_rest-Grows fuel value n u s') h1)
        ]

    make_room-Grows :
        (s s' : AvroValueDecoder A L) {room : Bool} → make_room A L s ≡ (done room, s') → Grows s s'
    unfolding make_room
    make_room-Grows s s' h = elim (Bool-cases (L.batch_is_full s.decoder)) [
      | inl e ↦ set_aside-Grows s s' (rw e at h)
      | inr e ↦ subst (Grows s) (ap (λ r. r.1) (rw e at h)) (Grows-self s)
    ]

    consumed_all-done :
        (value : Bytes) (total : Option ℕ) (s s' : AvroValueDecoder A L)
        → consumed_all A L value total s ≡ (done (some tt), s')
        → (total ≡ some (length value)) × (s ≡ s')
    consumed_all-done value none s s' h = cc (ap (λ r. r.0) h)
    consumed_all-done value (some n) s s' h = elim (Bool-cases (n == length value)) [
      | inl e ↦ (ground arith, ap (λ r. r.1) (rw e at h))
      | inr e ↦ cc (ap (λ r. r.0) (rw e at h))
    ]

    -- A push that succeeds adds rows behind those that the decoder holds, and keeps it valid.
    pub push-Grows :
        (fuel : ℕ) (value : Bytes) (s s' : AvroValueDecoder A L)
        → push A L fuel value s ≡ (done (some tt), s')
        → Grows s s'
    unfolding push
    push-Grows fuel value s s' h =
        let (room, s1, h1, k1) = done->>= (make_room A L) _ s h in
        let (consumed, s2, h2, k2) = done->>= (with_decoder A L (L.decode value)) _ s1 k1 in
        let (total, s3, h3, k3) = done->>= (push_rest A L fuel value consumed) _ s2 k2 in
        Grows-trans s s1 s' (make_room-Grows s s1 h1) (
          Grows-trans s1 s2 s' (decode-Grows value s1 s2 h2) (
            subst (Grows s2) (consumed_all-done value total s3 s' k3).1
              (push_rest-Grows fuel value consumed s2 s3 h3)))
