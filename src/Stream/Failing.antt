-- ===== src/Stream/Failing.antt =====
-- `collect_batches` of a source that fails.
use fsspec_data.Prelude.{
  ℕ, zero, suc, ◌<◌, ◌≡◌, refl, ap, ◌==◌, Bool-cases, inl, inr, false, ltb, Option, none, some,
  List, [], ◌∷◌, length, length-append, arith,
}
use fsspec_data.Errors.{InterchangeError}
use fsspec_data.Arrow.{Arrow, done, failed}
use fsspec_data.Stream.{
  Tokens, DecodedStream, Item, Found, found, exhausted, broken, search_source, search, next,
  proceed, emit, account, reaches, yield_length, is_cancelled, collect_batches,
}
use fsspec_data.Stream.Rows.{RowLaws}
use fsspec_data.Stream.Steps.{IsStream, Yields, rows_left}
use fsspec_data.Stream.Next.{next-Steps, yield_length-Yieldable}

module _ (A : Arrow) (e : InterchangeError A.external) where
  -- The first error of the source is `e`.
  abbrev pub FailsWith : List (Item A) → Type 0
  FailsWith [] = ⊥
  FailsWith (done b ∷ source) = FailsWith source
  FailsWith (failed x ∷ source) = x ≡ e

  abbrev FoundFails : Found A → Type 0
  FoundFails (found b offset source) = (offset < A.num_rows b) × FailsWith source
  FoundFails exhausted = ⊥
  FoundFails (broken x source) = x ≡ e

  search_source-FoundFails :
      (source : List (Item A)) → FailsWith source → FoundFails (search_source A source)
  unfolding search_source
  search_source-FoundFails [] h = elim h [ ]
  search_source-FoundFails (failed x ∷ source) h = h
  search_source-FoundFails (done b ∷ source) h = elim (Bool-cases (ltb 0 (A.num_rows b))) [
    | inl t ↦ rw t (ground arith, h)
    | inr t ↦ rw t (search_source-FoundFails source h)
  ]

  search-FoundFails :
      (pending : Option (A.RecordBatch × ℕ)) (source : List (Item A))
      → FailsWith source
      → FoundFails (search A pending source)
  unfolding search
  search-FoundFails none source h = search_source-FoundFails source h
  search-FoundFails (some (b, offset)) source h = elim (Bool-cases (ltb offset (A.num_rows b))) [
    | inl t ↦ rw t (ground arith, h)
    | inr t ↦ rw t (search_source-FoundFails source h)
  ]

  -- Nothing but the source ends the stream.
  pub record IsOpen (tokens : Tokens) (s : DecodedStream A) : Type 0 where
    pub no_row_limit : s.options.row_limit ≡ none
    pub no_byte_limit : s.options.byte_limit ≡ none
    pub not_cancelled : is_cancelled s.cancellation tokens ≡ false
    pub unfinished : s.finished ≡ false

  -- The error comes, or a batch before it.
  abbrev GoesOn : Option (Item A) → DecodedStream A → Type 0
  GoesOn none s = ⊥
  GoesOn (some (done b)) s = FailsWith s.source
  GoesOn (some (failed x)) s = x ≡ e

  proceed-GoesOn :
      (s : DecodedStream A) (f : Found A)
      → IsStream A s
      → s.options.row_limit ≡ none
      → s.options.byte_limit ≡ none
      → FoundFails f
      → GoesOn (proceed A s f).0 (proceed A s f).1
  unfolding proceed emit account
  proceed-GoesOn s (found b offset source) w n m (inside, h) =
      let y = yield_length-Yieldable A s b offset w (rw n refl) inside in
      let positive : (yield_length A s b offset == 0) ≡ false = ground (arith, y.some_rows) in
      simp positive (rw m h)
  proceed-GoesOn s exhausted w n m h = elim h [ ]
  proceed-GoesOn s (broken x source) w n m h = h

  next-GoesOn :
      (tokens : Tokens) (s : DecodedStream A)
      → IsStream A s
      → IsOpen tokens s
      → FailsWith s.source
      → GoesOn (next A tokens s).0 (next A tokens s).1
  unfolding next
  next-GoesOn tokens s w o h =
      let free : reaches s.emitted_rows s.options.row_limit ≡ false = rw o.no_row_limit refl in
      simp (o.unfinished, o.not_cancelled, free)
        (proceed-GoesOn s (search A s.pending s.source) w o.no_row_limit o.no_byte_limit
          (search-FoundFails s.pending s.source h))

  module _ (laws : RowLaws A) (tokens : Tokens) where
    abbrev Fails : ℕ → DecodedStream A → Type 0
    Fails fuel s = collect_batches A fuel tokens s ≡ some (failed e)

    round :
        (fuel : ℕ) (s : DecodedStream A) (item : Option (Item A))
        → (next A tokens s).0 ≡ item
        → IsStream A s
        → IsOpen tokens s
        → FailsWith s.source
        → length (rows_left A laws s) < suc fuel
        → ((s' : DecodedStream A)
            → IsStream A s'
            → IsOpen tokens s'
            → FailsWith s'.source
            → length (rows_left A laws s') < fuel
            → Fails fuel s')
        → Fails (suc fuel) s
    unfolding collect_batches
    round fuel s none q w o h enough ih =
        let absurdity : ⊥ = rw q at (next-GoesOn tokens s w o h) in elim absurdity [ ]
    round fuel s (some (failed x)) q w o h enough ih =
        let same : x ≡ e = rw q at (next-GoesOn tokens s w o h) in
        rw (collect_batches, q) (ap (λ z. some (failed z)) same)
    round fuel s (some (done b)) q w o h enough ih =
        let steps = next-Steps A laws tokens s w in
        let y : Yields A laws s (next A tokens s).1 b = rw q at steps.returns in
        let later : FailsWith (next A tokens s).1.source = rw q at (next-GoesOn tokens s w o h) in
        rw
          (
            collect_batches,
            q,
            ih (next A tokens s).1 steps.stays
                (record {
                  no_row_limit = rw steps.same_options o.no_row_limit;
                  no_byte_limit = rw steps.same_options o.no_byte_limit;
                  not_cancelled = rw steps.same_token o.not_cancelled;
                  unfinished = y.goes_on;
                })
                later
                (omega (
                  arith,
                  enough,
                  y.some_rows,
                  laws.length-rows b,
                  ap length y.next_rows,
                  length-append (laws.rows b) (rows_left A laws (next A tokens s).1),
                )),
          )
          refl

    pub collect-Fails :
        (fuel : ℕ) (s : DecodedStream A)
        → IsStream A s
        → IsOpen tokens s
        → FailsWith s.source
        → length (rows_left A laws s) < fuel
        → Fails fuel s
    collect-Fails zero s w o h enough = ground arith
    collect-Fails (suc fuel) s w o h enough =
        round fuel s (next A tokens s).0 refl w o h enough (collect-Fails fuel)
