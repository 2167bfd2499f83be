-- ===== src/Stream/Ending.antt =====
-- Cancellation, and what follows the end of a stream.
use fsspec_data.Prelude.{
  get_elem?-set, get_elem?-set_other, subst, ℕ, ◌<◌, ◌≡◌, ◌≢◌, refl, sym, ap, ◌==◌, Bool-cases, inl,
  inr, true, false, ltb, Option-cases, Option, none, some, List, [], ◌∷◌, length,
}
use fsspec_data.Errors.{stream_cancelled}
use fsspec_data.Arrow.{Arrow, done, failed}
use fsspec_data.Stream.{
  Tokens, DecodedStream, Item, Found, found, exhausted, broken, search, next, proceed, emit,
  account, reaches, yield_length, yielded, is_cancelled, cancel, saturating_add,
}

is_cancelled-cancel :
    (token : ℕ) (tokens : Tokens)
    → token < length tokens
    → is_cancelled token (cancel token tokens) ≡ true
unfolding is_cancelled cancel
is_cancelled-cancel token tokens h =
    rw (is_cancelled, cancel, get_elem?-set tokens token true h) refl

is_cancelled-cancel_other :
    (token other : ℕ) (tokens : Tokens)
    → token ≢ other
    → is_cancelled other (cancel token tokens) ≡ is_cancelled other tokens
unfolding is_cancelled cancel
is_cancelled-cancel_other token other tokens h =
    rw (is_cancelled, cancel, get_elem?-set_other tokens token other true h) refl

module _ (A : Arrow) where
  -- After a token in use is cancelled, the next call on an unfinished stream with that token returns
  -- the cancellation error and finishes the stream, and a call on a stream with another token does what
  -- it did before.
  pub next-cancel :
      (tokens : Tokens) (token : ℕ) (s : DecodedStream A)
      → token < length tokens
      → ((s.cancellation ≡ token)
          → s.finished ≡ false
          → next A (cancel token tokens) s
            ≡ (some (failed stream_cancelled), record s { finished = true }))
        × ((s.cancellation ≢ token) → next A (cancel token tokens) s ≡ next A tokens s)
  unfolding next
  next-cancel tokens token s h = (
    λ same f. simp (f, same, is_cancelled-cancel token tokens h) refl,
    λ other. simp (is_cancelled-cancel_other token s.cancellation tokens λ e. other (sym e)) refl,
  )

  -- A call that ends the stream for good if it returns an error.
  abbrev Stops : Option (Item A) × DecodedStream A → Type 0
  Stops (none, s) = Unit
  Stops (some (done b), s) = Unit
  Stops (some (failed e), s) = s.finished ≡ true

  account-Stops : (s : DecodedStream A) (b : A.RecordBatch) → Stops (account A s b)
  unfolding account
  account-Stops s b = elim (Option-cases s.options.byte_limit) [
    | inl e ↦ rw e tt
    | inr (limit, e) ↦
        elim (Bool-cases (ltb limit (saturating_add s.emitted_bytes (A.memory_size b)))) [
          | inl over ↦ rw (e, over) refl
          | inr fits ↦ rw (e, fits) tt
        ]
  ]

  proceed-Stops : (s : DecodedStream A) (f : Found A) → Stops (proceed A s f)
  unfolding proceed emit
  proceed-Stops s (found b offset source) = elim (Bool-cases (yield_length A s b offset == 0)) [
    | inl z ↦ simp z tt
    | inr z ↦ simp z (account-Stops _ (yielded A b offset (yield_length A s b offset)))
  ]
  proceed-Stops s exhausted = tt
  proceed-Stops s (broken e source) = refl

  next-Stops : (tokens : Tokens) (s : DecodedStream A) → Stops (next A tokens s)
  unfolding next
  next-Stops tokens s = elim (Bool-cases s.finished) [
    | inl e ↦ simp e tt
    | inr f ↦ elim (Bool-cases (is_cancelled s.cancellation tokens)) [
      | inl e ↦ simp (f, e) refl
      | inr c ↦ elim (Bool-cases (reaches s.emitted_rows s.options.row_limit)) [
        | inl e ↦ simp (f, c, e) tt
        | inr e ↦ simp (f, c, e) (proceed-Stops s (search A s.pending s.source))
      ]
    ]
  ]

  -- The results of a number of calls, each with the token cells that it finds.
  abbrev pub calls : List Tokens → DecodedStream A → List (Option (Item A))
  calls [] s = []
  calls (tokens ∷ later) s = (next A tokens s).0 ∷ calls later (next A tokens s).1

  abbrev pub all_none : List Tokens → List (Option (Item A))
  all_none [] = []
  all_none (tokens ∷ later) = none ∷ all_none later

  pub calls_finished :
      (later : List Tokens) (s : DecodedStream A)
      → s.finished ≡ true
      → calls later s ≡ all_none later
  unfolding next
  calls_finished [] s h = refl
  calls_finished (tokens ∷ later) s h = simp h (ap (λ xs. none ∷ xs) (calls_finished later s h))

  -- After a call that returns an error, every later call returns `none`, whatever is cancelled in
  -- between.
  pub calls_after_error :
      (tokens : Tokens) (later : List Tokens) (s s' : DecodedStream A) {e : _}
      → next A tokens s ≡ (some (failed e), s')
      → calls later s' ≡ all_none later
  calls_after_error tokens later s s' h =
      calls_finished later s' (subst Stops h (next-Stops tokens s))
