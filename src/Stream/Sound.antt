-- ===== src/Stream/Sound.antt =====
-- Calls of `next` where nothing can fail.
use mathlib.Core.Option.{some-injective}
use fsspec_data.Prelude.{
  ℕ, ◌≡◌, ◌≢◌, ◌==◌, Bool-cases, inl, inr, false, ltb, Option, none, some, List, [], ◌∷◌, All,
}
use fsspec_data.Arrow.{Arrow, done, failed}
use fsspec_data.Stream.{
  Tokens, DecodedStream, Item, Found, found, exhausted, broken, search_source, search, next,
  proceed, emit, account, reaches, yield_length, yielded, is_cancelled,
}

module _ (A : Arrow) where
  abbrev pub IsDone : Item A → Type 0
  IsDone (done b) = Unit
  IsDone (failed e) = ⊥

  -- Nothing is there to fail: no error in the source, no byte limit and no cancellation.
  pub record IsSound (tokens : Tokens) (s : DecodedStream A) : Type 0 where
    pub no_errors : All IsDone s.source
    pub no_byte_limit : s.options.byte_limit ≡ none
    pub not_cancelled : is_cancelled s.cancellation tokens ≡ false

  abbrev FoundDone : Found A → Type 0
  FoundDone (found b offset source) = All IsDone source
  FoundDone exhausted = Unit
  FoundDone (broken e source) = ⊥

  search_source-FoundDone :
      (source : List (Item A)) → All IsDone source → FoundDone (search_source A source)
  unfolding search_source
  search_source-FoundDone [] h = tt
  search_source-FoundDone (failed e ∷ source) h = elim h.0 [ ]
  search_source-FoundDone (done b ∷ source) h = elim (Bool-cases (ltb 0 (A.num_rows b))) [
    | inl e ↦ rw e h.1
    | inr e ↦ rw e (search_source-FoundDone source h.1)
  ]

  search-FoundDone :
      (pending : Option (A.RecordBatch × ℕ)) (source : List (Item A))
      → All IsDone source
      → FoundDone (search A pending source)
  unfolding search
  search-FoundDone none source h = search_source-FoundDone source h
  search-FoundDone (some (b, offset)) source h = elim (Bool-cases (ltb offset (A.num_rows b))) [
    | inl e ↦ rw e h
    | inr e ↦ rw e (search_source-FoundDone source h)
  ]

  -- A call that does not fail, and leaves nothing that could.
  abbrev pub StaysDone : Option (Item A) × DecodedStream A → Type 0
  StaysDone (item, s) = ((e : _) → item ≢ some (failed e)) × All IsDone s.source

  account-StaysDone :
      (s : DecodedStream A) (b : A.RecordBatch)
      → All IsDone s.source
      → s.options.byte_limit ≡ none
      → StaysDone (account A s b)
  unfolding account
  account-StaysDone s b h e = rw e (λ x p. cc (some-injective _ _ p), h)

  proceed-StaysDone :
      (s : DecodedStream A) (f : Found A)
      → FoundDone f
      → s.options.byte_limit ≡ none
      → StaysDone (proceed A s f)
  unfolding proceed emit
  proceed-StaysDone s (found b offset source) h e =
      elim (Bool-cases (yield_length A s b offset == 0)) [
        | inl z ↦ simp z (λ x p. cc, h)
        | inr z ↦ simp z (account-StaysDone _ (yielded A b offset (yield_length A s b offset)) h e)
      ]
  proceed-StaysDone s exhausted h e = (λ x p. cc, tt)
  proceed-StaysDone s (broken x source) h e = elim h [ ]

  pub next-StaysDone :
      (tokens : Tokens) (s : DecodedStream A) → IsSound tokens s → StaysDone (next A tokens s)
  unfolding next
  next-StaysDone tokens s h = elim (Bool-cases s.finished) [
    | inl e ↦ simp e (λ x p. cc, h.no_errors)
    | inr f ↦ elim (Bool-cases (reaches s.emitted_rows s.options.row_limit)) [
      | inl e ↦ simp (f, h.not_cancelled, e) (λ x p. cc, h.no_errors)
      | inr e ↦
          simp (f, h.not_cancelled, e)
            (proceed-StaysDone s (search A s.pending s.source)
              (search-FoundDone s.pending s.source h.no_errors) h.no_byte_limit)
    ]
  ]
