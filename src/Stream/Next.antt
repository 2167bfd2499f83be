-- ===== src/Stream/Next.antt =====
-- `next`: every call on a stream within its limits.
use mathlib.Core.Option.{some-injective}
use mathlib.Core.List.{append_assoc}
use fsspec_data.Prelude.{
  ℕ, ◌+◌, ◌-◌, ◌≤◌, ◌<◌, ◌≡◌, refl, ap, ◌∙◌, ◌==◌, Bool-cases, inl, inr, true, false, ltb, Option,
  none, some, List, [], ◌++◌, drop, arith, if◌then◌else◌,
}
use fsspec_data.Arrow.{Arrow}
use fsspec_data.Stream.{
  Tokens, DecodedStream, Item, Found, found, exhausted, broken, search, next, proceed, emit,
  reaches, row_remaining, yield_length, yielded, is_cancelled,
}
use fsspec_data.Stream.Rows.{RowLaws, source_rows, FoundRows, search-FoundRows}
use fsspec_data.Stream.Steps.{
  IsStream, Steps, rows_left, account-Steps, split_rows, length-yielded, carry-IsStream,
}

module _ (A : Arrow) where
  -- The rows to yield: some, no more than there are, than a batch takes and than the limit leaves.
  pub record Yieldable (s : DecodedStream A) (b : A.RecordBatch) (offset : ℕ) (n : ℕ) : Type 0 where
    pub some_rows : 0 < n
    pub in_batch : offset + n ≤ A.num_rows b
    pub at_most : n ≤ s.options.batch_size
    pub in_limit : (l : ℕ) → s.options.row_limit ≡ some l → s.emitted_rows + n ≤ l

  -- the row limit leaves some rows, and no more than it says
  remaining_lem :
      (s : DecodedStream A) (limit : Option ℕ)
      → s.options.row_limit ≡ limit
      → reaches s.emitted_rows limit ≡ false
      → (0 < row_remaining A s)
        × ((l : ℕ) → s.options.row_limit ≡ some l → s.emitted_rows + row_remaining A s ≤ l)
  remaining_lem s none e free = rw e (omega arith, λ l p. cc)
  remaining_lem s (some limit) e free =
      let below : s.emitted_rows < limit = ground arith in
      rw e (omega (arith, below), λ l p. omega (arith, some-injective limit l p, below))

  pub yield_length-Yieldable :
      (s : DecodedStream A) (b : A.RecordBatch) (offset : ℕ)
      → IsStream A s
      → reaches s.emitted_rows s.options.row_limit ≡ false
      → offset < A.num_rows b
      → Yieldable s b offset (yield_length A s b offset)
  yield_length-Yieldable s b offset w free h =
      let (some_left, limit) = remaining_lem s s.options.row_limit refl free in
      let of_remaining : yield_length A s b offset ≤ row_remaining A s = omega arith in
      record {
        some_rows = omega (arith, w.batches, h, some_left);
        in_batch = omega (arith, h);
        at_most = omega arith;
        in_limit = λ l p. omega (arith, limit l p, of_remaining);
      }

  module _ (laws : RowLaws A) where
    emit-Steps :
        (s : DecodedStream A) (b : A.RecordBatch) (offset : ℕ) (source : List (Item A))
        → IsStream A s
        → s.finished ≡ false
        → reaches s.emitted_rows s.options.row_limit ≡ false
        → offset < A.num_rows b
        → rows_left A laws s ≡ drop offset (laws.rows b) ++ source_rows A laws source
        → Steps A laws s (emit A (record s { pending = none; source = source }) b offset)
    unfolding emit
    emit-Steps s b offset source w f free h rows =
        let y = yield_length-Yieldable s b offset w free h in
        let n = yield_length A s b offset in
        let is = length-yielded A laws b offset n y.in_batch in
        let positive : (n == 0) ≡ false = ground (arith, y.some_rows) in
        simp positive (
          account-Steps A laws s
            (if ltb n (A.num_rows b - offset) then some (b, offset + n) else none) source
            (yielded A b offset n) w f (rw is y.some_rows) (rw is y.at_most) (rw is y.in_limit)
            (rows
              ∙ ap (λ xs. xs ++ source_rows A laws source) (split_rows A laws b offset n y.in_batch)
              ∙ append_assoc (laws.rows (yielded A b offset n)) _ _))

    proceed-Steps :
        (s : DecodedStream A) (f : Found A)
        → IsStream A s
        → s.finished ≡ false
        → reaches s.emitted_rows s.options.row_limit ≡ false
        → FoundRows A laws (rows_left A laws s) f
        → Steps A laws s (proceed A s f)
    unfolding proceed
    proceed-Steps s (found b offset source) w f free (h, rows) =
        emit-Steps s b offset source w f free h rows
    proceed-Steps s exhausted w f free rows = record {
      returns = (inr (inr rows), inr refl);
      stays = carry-IsStream A s none [] s.finished w;
      same_options = refl;
      same_token = refl;
    }
    proceed-Steps s (broken e source) w f free rows = record {
      returns = refl;
      stays = carry-IsStream A s none source true w;
      same_options = refl;
      same_token = refl;
    }

    -- A call of `next` on a stream within its limits leaves it within its limits, with its options and
    -- its token. A batch that it returns has between one row and a full batch of them, they are the
    -- first of the rows left and fit the row limit, and the count of rows grows by them. An error
    -- finishes the stream. It returns `none` only where the stream is finished, the row limit is
    -- reached or no rows are left.
    pub next-Steps :
        (tokens : Tokens) (s : DecodedStream A) → IsStream A s → Steps A laws s (next A tokens s)
    unfolding next
    next-Steps tokens s w = elim (Bool-cases s.finished) [
      | inl e ↦
          simp e
            (record { returns = (inl e, inl e); stays = w; same_options = refl; same_token = refl })
      | inr f ↦ elim (Bool-cases (is_cancelled s.cancellation tokens)) [
        | inl e ↦
            simp (f, e)
              (record {
                returns = refl;
                stays = carry-IsStream A s s.pending s.source true w;
                same_options = refl;
                same_token = refl;
              })
        | inr c ↦ elim (Bool-cases (reaches s.emitted_rows s.options.row_limit)) [
          | inl e ↦
              simp (f, c, e)
                (record {
                  returns = (inr (inl e), inl refl);
                  stays = carry-IsStream A s s.pending s.source true w;
                  same_options = refl;
                  same_token = refl;
                })
          | inr free ↦
              simp (f, c, free)
                (proceed-Steps s (search A s.pending s.source) w f free
                  (search-FoundRows A laws s.pending s.source))
        ]
      ]
    ]
