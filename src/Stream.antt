-- ===== src/Stream.antt =====
-- rust/src/stream.rs: cancellation tokens, stream options and the decoded stream.
pub mod Rows
pub mod Steps
pub mod Next
pub mod Sound
pub mod Collecting
pub mod Ending
pub mod Sequences
pub mod Bytes
pub mod Counting
pub mod Failing
use fsspec_data.Prelude.{
  ℕ, suc, zero, ◌+◌, ◌-◌, ◌%◌, ◌^◌, min, Bool, true, false, ◌&&◌, ◌==◌, ltb, leb, Option, none,
  some, List, [], ◌∷◌, ◌++◌, length, get_elem?, set, if◌then◌else◌,
}
use fsspec_data.Errors.{
  Result, ok, err, InterchangeError, invalid_batch_size, stream_cancelled, byte_limit_exceeded,
}
use fsspec_data.Arrow.{Arrow, Outcome, done, failed}

-- The cells that cancellation tokens point to. Clones of a token share its cell.
abbrev pub Tokens : Type 0
Tokens = List Bool

-- `CancellationToken::new`: the token and the cells with one more
unfoldable pub new_token : Tokens → ℕ × Tokens
new_token tokens = (length tokens, tokens ++ false ∷ [])

-- `CancellationToken::cancel`
unfoldable pub cancel : ℕ → Tokens → Tokens
cancel token tokens = set tokens token true

-- `CancellationToken::is_cancelled`
unfoldable pub is_cancelled : ℕ → Tokens → Bool
is_cancelled token tokens = elim (get_elem? tokens token) [ none ↦ false | some cell ↦ cell ]

pub record StreamOptions : Type 0 where
  pub batch_size : ℕ
  pub row_limit : Option ℕ
  pub byte_limit : Option ℕ

-- `StreamOptions::default`
abbrev pub default_options : StreamOptions
default_options = record { batch_size = 1024; row_limit = none; byte_limit = none }

-- `usize` has 64 bits.
abbrev pub usize_max : ℕ
usize_max = 2 ^ 64 - 1

-- `a.saturating_add(b)`
abbrev pub saturating_add : ℕ → ℕ → ℕ
saturating_add a b = min (a + b) usize_max

-- `option.is_some_and(|limit| value >= limit)`
abbrev pub reaches : ℕ → Option ℕ → Bool
reaches value none = false
reaches value (some limit) = leb limit value

module _ (A : Arrow) where
  abbrev pub Item : Type 0
  Item = Outcome (InterchangeError A.external) A.RecordBatch

  -- The source is the list of the items that the iterator has left.
  pub record DecodedStream : Type 0 where
    pub schema : A.Schema
    pub source : List Item
    pub options : StreamOptions
    pub cancellation : ℕ
    pub pending : Option (A.RecordBatch × ℕ)
    pub emitted_rows : ℕ
    pub emitted_bytes : ℕ
    pub finished : Bool

  -- `DecodedStream::new`
  unfoldable pub new : A.Schema → List Item → StreamOptions → ℕ → Result A.external DecodedStream
  new schema source options cancellation =
      if options.batch_size == 0
      then err invalid_batch_size
      else ok (record {
        schema = schema;
        source = source;
        options = options;
        cancellation = cancellation;
        pending = none;
        emitted_rows = 0;
        emitted_bytes = 0;
        finished = false;
      })

  -- What the loop of `next` ends with, each time with the items left: a batch with rows behind the
  -- offset, the end of the source, or its error.
  pub data Found : Type 0 where
    found : A.RecordBatch → ℕ → List Item → Found
    exhausted : Found
    broken : InterchangeError A.external → List Item → Found

  -- the rounds of the loop that take from the source
  unfoldable pub search_source : List Item → Found
  search_source [] = exhausted
  search_source (done batch ∷ source) =
      if ltb 0 (A.num_rows batch) then found batch 0 source else search_source source
  search_source (failed e ∷ source) = broken e source

  -- the loop of `next`, which takes the pending batch first
  unfoldable pub search : Option (A.RecordBatch × ℕ) → List Item → Found
  unfolding search_source
  search none source = search_source source
  search (some (batch, offset)) source =
      if ltb offset (A.num_rows batch) then found batch offset source else search_source source

  -- the rows that the limit leaves; the limit is not reached where this is read
  abbrev pub row_remaining : DecodedStream → ℕ
  row_remaining s = elim s.options.row_limit [
    | none ↦ usize_max
    | some limit ↦ limit - s.emitted_rows
  ]

  -- how many rows of the batch the call yields
  abbrev pub yield_length : DecodedStream → A.RecordBatch → ℕ → ℕ
  yield_length s batch offset =
      min (min (A.num_rows batch - offset) s.options.batch_size) (row_remaining s)

  abbrev pub yielded : A.RecordBatch → ℕ → ℕ → A.RecordBatch
  yielded batch offset n =
      if offset == 0 && n == A.num_rows batch then batch else A.slice batch offset n

  -- the byte limit, and the counters; `s` has its new pending batch already
  unfoldable pub account : DecodedStream → A.RecordBatch → Option Item × DecodedStream
  account s output =
      let attempted = saturating_add s.emitted_bytes (A.memory_size output) in
      let counted = record s {
        emitted_rows = (s.emitted_rows + A.num_rows output) % 2 ^ 64;
        emitted_bytes = attempted;
      } in
      elim s.options.byte_limit [
        | none ↦ (some (done output), counted)
        | some limit ↦
            if ltb limit attempted
            then (some (failed (byte_limit_exceeded limit attempted)), record s { finished = true })
            else (some (done output), counted)
      ]

  -- what follows the loop of `next`; `s` has no pending batch
  unfoldable pub emit : DecodedStream → A.RecordBatch → ℕ → Option Item × DecodedStream
  unfolding account
  emit s batch offset =
      let n = yield_length s batch offset in
      let rest : Option (A.RecordBatch × ℕ) =
        if ltb n (A.num_rows batch - offset) then some (batch, offset + n) else none in
      if n == 0
      then (none, record s { finished = true })
      else account (record s { pending = rest }) (yielded batch offset n)

  unfoldable pub proceed : DecodedStream → Found → Option Item × DecodedStream
  unfolding emit
  proceed s (found batch offset source) =
      emit (record s { pending = none; source = source }) batch offset
  proceed s exhausted = (none, record s { pending = none; source = [] })
  proceed s (broken e source) =
      (some (failed e), record s { pending = none; source = source; finished = true })

  -- `DecodedStream::next`
  unfoldable pub next : Tokens → DecodedStream → Option Item × DecodedStream
  unfolding search proceed is_cancelled
  next tokens s =
      if s.finished
      then (none, s)
      else if is_cancelled s.cancellation tokens
      then (some (failed stream_cancelled), record s { finished = true })
      else if reaches s.emitted_rows s.options.row_limit
      then (none, record s { finished = true })
      else proceed s (search s.pending s.source)

  -- `collect_batches`: `none` is fuel that ran out.
  unfoldable pub collect_batches :
      ℕ
      → Tokens
      → DecodedStream
      → Option (Outcome (InterchangeError A.external) (List A.RecordBatch))
  unfolding next
  collect_batches zero tokens s = none
  collect_batches (suc fuel) tokens s =
      let (item, s') = next tokens s in
      elim item [
        | none ↦ some (done [])
        | some r ↦ elim r [
          | failed e ↦ some (failed e)
          | done batch ↦ elim (collect_batches fuel tokens s') [
            | none ↦ none
            | some rest ↦ elim rest [
              | failed e ↦ some (failed e)
              | done batches ↦ some (done (batch ∷ batches))
            ]
          ]
        ]
      ]
