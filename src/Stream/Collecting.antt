-- ===== src/Stream/Collecting.antt =====
-- `collect_batches` of a stream where nothing can fail.
use fsspec_data.Prelude.{
  ℕ, zero, suc, ◌+◌, ◌-◌, ◌%◌, ◌^◌, ◌≤◌, ◌<◌, ◌≡◌, refl, sym, ap, ◌∙◌, inl, inr, ◌⊎◌, true, false,
  Option, none, some, List, [], ◌∷◌, ◌++◌, length, length-append, take, arith, All, ◌==◌,
}
use fsspec_data.Errors.{ok}
use fsspec_data.Arrow.{Arrow, done, failed}
use fsspec_data.Stream.{
  Tokens, StreamOptions, DecodedStream, Item, next, reaches, is_cancelled, usize_max, new,
  collect_batches,
}
use fsspec_data.Stream.Rows.{RowLaws, take-append, take_all, source_rows}
use fsspec_data.Stream.Steps.{IsStream, Yields, Ends, rows_left}
use fsspec_data.Stream.Next.{next-Steps}
use fsspec_data.Stream.Sound.{IsSound, IsDone, next-StaysDone}

module _ (A : Arrow) (laws : RowLaws A) where
  abbrev pub batch_rows : List A.RecordBatch → List laws.Row
  batch_rows [] = []
  batch_rows (b ∷ batches) = laws.rows b ++ batch_rows batches

  -- the rows that a limit leaves when so many have been yielded
  abbrev pub limited : Option ℕ → ℕ → List laws.Row → List laws.Row
  limited none n rows = rows
  limited (some limit) n rows = take (limit - n) rows

  abbrev pub FitsOptions : StreamOptions → A.RecordBatch → Type 0
  FitsOptions options b = (0 < A.num_rows b) × (A.num_rows b ≤ options.batch_size)

  -- All the rows come, up to the limit, in batches of the right size.
  pub record Collected (fuel : ℕ) (tokens : Tokens) (s : DecodedStream A) : Type 0 where
    pub batches : List A.RecordBatch
    pub runs : collect_batches A fuel tokens s ≡ some (done batches)
    pub sized : All (FitsOptions s.options) batches
    pub holds : batch_rows batches ≡ limited s.options.row_limit s.emitted_rows (rows_left A laws s)

  limited_end :
      (limit : Option ℕ) (n : ℕ) (rows : List laws.Row)
      → (reaches n limit ≡ true) ⊎ (rows ≡ [])
      → limited limit n rows ≡ []
  limited_end none n rows (inl e) = cc
  limited_end none n rows (inr e) = e
  limited_end (some l) n rows (inl e) =
      let over : l ≤ n = ground arith in ap (λ k. take k rows) {y = 0} (omega (arith, over))
  limited_end (some l) n rows (inr e) = rw e (take_all (l - n) [] (omega arith))

  limited_step :
      (limit : Option ℕ) (n : ℕ) (b : A.RecordBatch) (rows : List laws.Row)
      → ((l : ℕ) → limit ≡ some l → (l ≤ usize_max) × (n + A.num_rows b ≤ l))
      → limited limit n (laws.rows b ++ rows)
        ≡ laws.rows b ++ limited limit ((n + A.num_rows b) % 2 ^ 64) rows
  limited_step none n b rows h = refl
  limited_step (some l) n b rows h =
      let (small, fits) = h l refl in
      ap (λ k. take k (laws.rows b ++ rows)) (omega (arith, small, fits, laws.length-rows b))
      ∙ take-append (l - (n + A.num_rows b) % 2 ^ 64) (laws.rows b) rows

  module _ (fuel : ℕ) (tokens : Tokens) where
    -- One call of `next` before the calls that are known to collect the rest.
    round :
        (s : DecodedStream A) (item : Option (Item A))
        → (next A tokens s).0 ≡ item
        → IsStream A s
        → IsSound A tokens s
        → s.finished ≡ false
        → length (rows_left A laws s) < suc fuel
        → ((s' : DecodedStream A)
            → IsStream A s'
            → IsSound A tokens s'
            → s'.finished ≡ false
            → length (rows_left A laws s') < fuel
            → Collected fuel tokens s')
        → Collected (suc fuel) tokens s
    unfolding collect_batches
    round s none e w sound f enough ih =
        let steps = next-Steps A laws tokens s w in
        let ends : Ends A laws s × _ = rw e at steps.returns in
        record {
          batches = [];
          runs = rw (collect_batches, e) refl;
          sized = tt;
          holds = sym (
              limited_end s.options.row_limit s.emitted_rows (rows_left A laws s)
                (elim ends.0 [ inl x ↦ cc (f, x) | inr x ↦ x ]));
        }
    round s (some (failed x)) e w sound f enough ih =
        elim ((next-StaysDone A tokens s sound).0 x e) [ ]
    round s (some (done b)) e w sound f enough ih =
        let steps = next-Steps A laws tokens s w in
        let y : Yields A laws s (next A tokens s).1 b = rw e at steps.returns in
        let rest =
          ih (next A tokens s).1 steps.stays
            (record {
              no_errors = (next-StaysDone A tokens s sound).1;
              no_byte_limit = rw steps.same_options sound.no_byte_limit;
              not_cancelled = rw steps.same_token sound.not_cancelled;
            })
            y.goes_on
            (omega (
              arith,
              enough,
              y.some_rows,
              laws.length-rows b,
              ap length y.next_rows,
              length-append (laws.rows b) (rows_left A laws (next A tokens s).1),
            )) in
        record {
          batches = b ∷ rest.batches;
          runs = rw (collect_batches, e, rest.runs) refl;
          sized = ((y.some_rows, y.at_most), rw steps.same_options at rest.sized);
          holds =
              ap (λ xs. laws.rows b ++ xs)
                (rest.holds
                  ∙ ap
                      (λ (o : StreamOptions).
                        limited o.row_limit (next A tokens s).1.emitted_rows
                          (rows_left A laws (next A tokens s).1))
                      steps.same_options
                  ∙ ap (λ n. limited s.options.row_limit n (rows_left A laws (next A tokens s).1))
                      y.counted)
              ∙ sym (
                  limited_step s.options.row_limit s.emitted_rows b
                    (rows_left A laws (next A tokens s).1)
                    (λ l p. (w.row_limit_fits l p, y.in_limit l p)))
              ∙ ap (λ xs. limited s.options.row_limit s.emitted_rows xs) (sym y.next_rows);
        }

  collects :
      (fuel : ℕ) (tokens : Tokens) (s : DecodedStream A)
      → IsStream A s
      → IsSound A tokens s
      → s.finished ≡ false
      → length (rows_left A laws s) < fuel
      → Collected fuel tokens s
  collects zero tokens s w sound f enough = ground arith
  collects (suc fuel) tokens s w sound f enough =
      round fuel tokens s (next A tokens s).0 refl w sound f enough (collects fuel tokens)

  -- For a positive batch size, a row limit that is a `usize` if there is one, no byte limit, a source
  -- without errors and a token that is not cancelled, `new` makes a stream, and with more fuel than the
  -- source has rows `collect_batches` returns batches of between one row and a full batch, which
  -- together hold the rows of the source in order, up to the row limit.
  pub collect_batches_lem :
      (schema : A.Schema) (source : List (Item A)) (options : StreamOptions) (cancellation : ℕ)
      (tokens : Tokens) (fuel : ℕ)
      → 0 < options.batch_size
      → ((l : ℕ) → options.row_limit ≡ some l → l ≤ usize_max)
      → options.byte_limit ≡ none
      → All (IsDone A) source
      → is_cancelled cancellation tokens ≡ false
      → length (source_rows A laws source) < fuel
      → (s : DecodedStream A) × (batches : List A.RecordBatch) × (new A schema source options
            cancellation
          ≡ ok s)
        × (collect_batches A fuel tokens s ≡ some (done batches))
        × All (FitsOptions options) batches
        × (batch_rows batches ≡ limited options.row_limit 0 (source_rows A laws source))
  unfolding new
  collect_batches_lem schema source options cancellation tokens fuel some_rows fits none_bytes dones
        live enough =
      let s : DecodedStream A = record {
        schema = schema;
        source = source;
        options = options;
        cancellation = cancellation;
        pending = none;
        emitted_rows = 0;
        emitted_bytes = 0;
        finished = false;
      } in
      let c =
        collects fuel tokens s
          (record {
            batches = some_rows;
            row_limit_fits = fits;
            within_rows = λ l p. omega arith;
            within_bytes = λ l p. omega arith;
          })
          (record { no_errors = dones; no_byte_limit = none_bytes; not_cancelled = live }) refl
          enough in
      let positive : (options.batch_size == 0) ≡ false = ground arith in
      (s, c.batches, simp positive refl, c.runs, c.sized, c.holds)
