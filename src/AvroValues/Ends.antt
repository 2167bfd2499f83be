-- ===== src/AvroValues/Ends.antt =====
-- The loop of `push` ends.
use fsspec_data.Prelude.{
  ℕ, zero, suc, ◌+◌, ◌≤◌, ◌<◌, ◌≡◌, ◌≢◌, refl, sym, ap, ◌∙◌, Bool, Bool-cases, inl, inr, ◌⊎◌, true,
  false, ◌&&◌, ◌==◌, ltb, Option, none, some, [], length, drop, arith,
}
use fsspec_data.Errors.{InterchangeError}
use fsspec_data.Arrow.{Arrow, Outcome, done}
use fsspec_data.Stateful.{done-injective, >>=-result}
use fsspec_data.Stream.Rows.{RowLaws, length-drop}
use fsspec_data.Reader.{Bytes}
use fsspec_data.AvroValues.{
  AvroLibrary, AvroValueDecoder, with_decoder, set_aside, read_on, push_rest, consumed_all,
  make_room, push,
}
use fsspec_data.AvroValues.Contents.{DecoderLaws, set_aside-Emptied}
use fsspec_data.AvroValues.Pushing.{with_decoder-done}

module _ (A : Arrow) (L : AvroLibrary A) (laws : RowLaws A) (D : DecoderLaws A L laws) where
  -- The call did not run out of fuel.
  abbrev pub Ended : {B : Type 0} → Outcome (InterchangeError A.external) (Option B) → Type 0
  Ended r = r ≢ done none

  -- Enough for a round for each byte left, or for one round where the decoder holds nothing.
  abbrev Enough : ℕ → Bytes → ℕ → AvroValueDecoder A L → Type 0
  Enough fuel value consumed s =
      (length value + 2 ≤ fuel + consumed) ⊎ ((D.held s.decoder ≡ []) × (0 < fuel))

  read_on-Ended :
      (fuel : ℕ) (value : Bytes) (consumed : ℕ) (found : Bool) (s : AvroValueDecoder A L)
      → consumed < length value
      → (found ≡ true → length value + 2 ≤ suc fuel + consumed)
      → D.held s.decoder ≡ []
      → ((n : ℕ) (t : AvroValueDecoder A L)
          → n ≤ length value
          → Enough fuel value n t
          → Ended (push_rest A L fuel value n t).0)
      → Ended (read_on A L (push_rest A L fuel value) value consumed found s).0
  read_on-Ended fuel value consumed false s b h z ih = λ e. cc
  read_on-Ended fuel value consumed true s b h z ih =
      >>=-result Ended (with_decoder A L (L.decode (drop consumed value))) _ s
        (λ more t decoded.
          let (d, e, same) = with_decoder-done A L (L.decode (drop consumed value)) s t decoded in
          let (new, held, schema, bound, progress) =
            D.decodes (drop consumed value) s.decoder d more e in
          let left = length-drop consumed value (omega (arith, b)) in
          ih (consumed + more) t (omega (arith, bound, left)) (elim (Bool-cases (more == 0)) [
            | inl e0 ↦
                let none_new : new ≡ [] = progress (ground arith) (omega (arith, left, b)) in
                let now : D.held d ≡ [] = held ∙ rw (z, none_new) refl in
                inr (rw (← same) now, omega (arith, h refl, b))
            | inr e1 ↦
                let some_more : 0 < more = ground arith in inl (omega (arith, h refl, some_more))
          ]))
        (λ e q. cc)

  push_rest-Ended :
      (fuel : ℕ) (value : Bytes) (consumed : ℕ) (s : AvroValueDecoder A L)
      → consumed ≤ length value
      → Enough fuel value consumed s
      → Ended (push_rest A L fuel value consumed s).0
  unfolding push_rest
  push_rest-Ended zero value consumed s b (inl h) = absurd (omega (arith, b, h))
  push_rest-Ended zero value consumed s b (inr h) = absurd (omega (arith, h.1))
  push_rest-Ended (suc fuel) value consumed s b h =
      elim (Bool-cases (s.framed && ltb consumed (length value))) [
        | inr e ↦ rw (push_rest, e) (λ q. cc)
        | inl e ↦
            rw (push_rest, e)
              (>>=-result Ended (set_aside A L) _ s
                (λ found t aside.
                  let a = set_aside-Emptied A L laws D s in
                  let now : a.after ≡ t = ap (λ r. r.1) (sym a.returned ∙ aside) in
                  let same : a.found ≡ found =
                    done-injective a.found found (ap (λ r. r.0) (sym a.returned ∙ aside)) in
                  read_on-Ended fuel value consumed found t (ground arith)
                    (λ q. elim h [ inl l ↦ l | inr z ↦ absurd (a.found_some (same ∙ q) z.0) ])
                    (rw (← now) a.emptied) (push_rest-Ended fuel value))
                (λ x q. cc))
      ]

  -- `push` ends: with two units of fuel more than the value has bytes, it does not run out.
  pub push-Ended :
      (value : Bytes) (s : AvroValueDecoder A L) (fuel : ℕ)
      → length value + 2 ≤ fuel
      → Ended (push A L fuel value s).0
  unfolding push
  push-Ended value s fuel enough =
      >>=-result Ended (make_room A L) _ s
        (λ room s1 h1.
          >>=-result Ended (with_decoder A L (L.decode value)) _ s1
            (λ consumed s2 h2.
              let (d, e, same) = with_decoder-done A L (L.decode value) s1 s2 h2 in
              let (new, held, schema, bound, progress) = D.decodes value s1.decoder d consumed e in
              >>=-result Ended (push_rest A L fuel value consumed) _ s2
                (λ total s3 h3. finished value total s3 λ q.
                  push_rest-Ended fuel value consumed s2 bound (inl (omega (arith, enough)))
                    (ap (λ r. r.0) h3 ∙ ap done q))
                (λ x q. cc))
            (λ x q. cc))
        (λ x q. cc)
    where
      finished :
          (value : Bytes) (total : Option ℕ) (s : AvroValueDecoder A L)
          → total ≢ none
          → Ended (consumed_all A L value total s).0
      finished value none s h = absurd (h refl)
      finished value (some n) s h = elim (Bool-cases (n == length value)) [
        | inl e ↦ rw e (λ q. cc (ap (λ r. r) q))
        | inr e ↦ rw e (λ q. cc)
      ]
