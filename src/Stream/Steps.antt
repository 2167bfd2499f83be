-- ===== src/Stream/Steps.antt =====
-- What one call of `next` does to a stream: the rows that it yields, the limits, and the end.
use mathlib.Core.Option.{some-injective}
use fsspec_data.Prelude.{
  ℕ, ◌+◌, ◌-◌, ◌%◌, ◌^◌, ◌≤◌, ◌<◌, ◌≡◌, refl, sym, ap, ◌∙◌, ◌⊎◌, ◌&&◌, ◌==◌, Bool, Bool-cases,
  Option-cases, inl, inr, true, false, ltb, Option, none, some, List, [], ◌++◌, length, take, drop,
  arith, if◌then◌else◌,
}
use fsspec_data.Arrow.{Arrow, done, failed}
use fsspec_data.Stream.{DecodedStream, Item, account, reaches, saturating_add, yielded, usize_max}
use fsspec_data.Stream.Rows.{
  RowLaws, take-drop, drop-drop, drop_all, take_all, length-drop, length-take, source_rows,
  pending_rows,
}

module _ (A : Arrow) where
  -- The row limit is a `usize` that the rows so far are within, and so are the bytes.
  pub record IsStream (s : DecodedStream A) : Type 0 where
    pub batches : 0 < s.options.batch_size
    pub row_limit_fits : (l : ℕ) → s.options.row_limit ≡ some l → l ≤ usize_max
    pub within_rows : (l : ℕ) → s.options.row_limit ≡ some l → s.emitted_rows ≤ l
    pub within_bytes : (l : ℕ) → s.options.byte_limit ≡ some l → s.emitted_bytes ≤ l

  -- Neither what is pending nor the source matters to the limits.
  pub carry-IsStream :
      (s : DecodedStream A) (pending : Option (A.RecordBatch × ℕ)) (source : List (Item A))
      (finished : Bool)
      → IsStream s
      → IsStream (record s { pending = pending; source = source; finished = finished })
  carry-IsStream s pending source finished w = record {
    batches = w.batches;
    row_limit_fits = w.row_limit_fits;
    within_rows = w.within_rows;
    within_bytes = w.within_bytes;
  }

  module _ (laws : RowLaws A) where
    -- the rows that a stream has not yielded, up to the source's first error
    abbrev pub rows_left : DecodedStream A → List laws.Row
    rows_left s = pending_rows A laws s.pending ++ source_rows A laws s.source

    pub record Yields (s s' : DecodedStream A) (b : A.RecordBatch) : Type 0 where
      pub some_rows : 0 < A.num_rows b
      pub at_most : A.num_rows b ≤ s.options.batch_size
      pub next_rows : rows_left s ≡ laws.rows b ++ rows_left s'
      pub counted : s'.emitted_rows ≡ (s.emitted_rows + A.num_rows b) % 2 ^ 64
      pub in_limit : (l : ℕ) → s.options.row_limit ≡ some l → s.emitted_rows + A.num_rows b ≤ l
      pub goes_on : s'.finished ≡ false

    -- Why a call returns `none`.
    abbrev pub Ends : DecodedStream A → Type 0
    Ends s =
        (s.finished ≡ true)
        ⊎ (reaches s.emitted_rows s.options.row_limit ≡ true)
        ⊎ (rows_left s ≡ [])

    abbrev pub Returns : DecodedStream A → Option (Item A) → DecodedStream A → Type 0
    Returns s none s' = Ends s × ((s'.finished ≡ true) ⊎ (rows_left s' ≡ []))
    Returns s (some (done b)) s' = Yields s s' b
    Returns s (some (failed e)) s' = s'.finished ≡ true

    -- What a call of `next` comes to.
    pub record Steps (s : DecodedStream A) (r : Option (Item A) × DecodedStream A) : Type 0 where
      pub returns : Returns s r.0 r.1
      pub stays : IsStream r.1
      pub same_options : r.1.options ≡ s.options
      pub same_token : r.1.cancellation ≡ s.cancellation

    num_rows-yielded :
        (b : A.RecordBatch) (offset n : ℕ)
        → offset + n ≤ A.num_rows b
        → laws.rows (yielded A b offset n) ≡ take n (drop offset (laws.rows b))
    num_rows-yielded b offset n h = elim (Bool-cases (offset == 0 && n == A.num_rows b)) [
      | inl e ↦ rw e (whole offset n (ground arith) (ground arith))
      | inr e ↦ rw e (laws.rows-slice b offset n h)
    ]
      where
        whole :
            (offset n : ℕ)
            → offset ≡ 0
            → n ≡ A.num_rows b
            → laws.rows b ≡ take n (drop offset (laws.rows b))
        whole offset n z w =
            rw z (sym (take_all n (laws.rows b) (omega (arith, w, laws.length-rows b))))

    pub length-yielded :
        (b : A.RecordBatch) (offset n : ℕ)
        → offset + n ≤ A.num_rows b
        → A.num_rows (yielded A b offset n) ≡ n
    length-yielded b offset n h =
        sym (laws.length-rows (yielded A b offset n))
        ∙ ap length (num_rows-yielded b offset n h)
        ∙ length-take n (drop offset (laws.rows b)) (
            omega (
              arith,
              laws.length-rows b,
              length-drop offset (laws.rows b) (omega (arith, laws.length-rows b)),
            ))

    -- the rows behind the offset, in the part that is yielded and the part that becomes pending
    pub split_rows :
        (b : A.RecordBatch) (offset n : ℕ)
        → offset + n ≤ A.num_rows b
        → drop offset (laws.rows b)
          ≡ laws.rows (yielded A b offset n)
            ++ pending_rows A laws
                (if ltb n (A.num_rows b - offset) then some (b, offset + n) else none)
    split_rows b offset n h =
        sym (take-drop n (drop offset (laws.rows b)))
        ∙ (rw (num_rows-yielded b offset n h)
            (ap (λ xs. take n (drop offset (laws.rows b)) ++ xs) rest))
      where
        rest :
            drop n (drop offset (laws.rows b))
            ≡ pending_rows A laws
                (if ltb n (A.num_rows b - offset) then some (b, offset + n) else none)
        rest = elim (Bool-cases (ltb n (A.num_rows b - offset))) [
          | inl e ↦ rw e (drop-drop n offset (laws.rows b))
          | inr e ↦ rw e (
              drop-drop n offset (laws.rows b)
              ∙ drop_all (offset + n) (laws.rows b) (ground (arith, laws.length-rows b)))
        ]

    abbrev attempted : DecodedStream A → A.RecordBatch → ℕ
    attempted s output = saturating_add s.emitted_bytes (A.memory_size output)

    pub account-Steps :
        (s : DecodedStream A) (pending : Option (A.RecordBatch × ℕ)) (source : List (Item A))
        (output : A.RecordBatch)
        → IsStream s
        → s.finished ≡ false
        → 0 < A.num_rows output
        → A.num_rows output ≤ s.options.batch_size
        → ((l : ℕ) → s.options.row_limit ≡ some l → s.emitted_rows + A.num_rows output ≤ l)
        → rows_left s
          ≡ laws.rows output ++ (pending_rows A laws pending ++ source_rows A laws source)
        → Steps s (account A (record s { pending = pending; source = source }) output)
    unfolding account
    account-Steps s pending source output w f pos most lim rows =
        elim (Option-cases s.options.byte_limit) [
          | inl e ↦ simp e (counts λ l p. cc (e, p))
          | inr (limit, e) ↦ elim (Bool-cases (ltb limit (attempted s output))) [
            | inl over ↦
                simp (e, over)
                  (record {
                    returns = refl;
                    stays = carry-IsStream s pending source true w;
                    same_options = refl;
                    same_token = refl;
                  })
            | inr fits ↦
                simp (e, fits)
                  (counts λ l p. rw (some-injective l limit (sym p ∙ e)) (ground arith))
          ]
        ]
      where
        counts :
            ((l : ℕ) → s.options.byte_limit ≡ some l → attempted s output ≤ l)
            → Steps s (
              some (done output),
              record s {
                pending = pending;
                source = source;
                emitted_rows = (s.emitted_rows + A.num_rows output) % 2 ^ 64;
                emitted_bytes = attempted s output;
              },
            )
        counts bytes = record {
          returns = record {
            some_rows = pos;
            at_most = most;
            next_rows = rows;
            counted = refl;
            in_limit = lim;
            goes_on = f;
          };
          stays = record {
            batches = w.batches;
            row_limit_fits = w.row_limit_fits;
            within_rows = λ l p. omega (arith, lim l p);
            within_bytes = bytes;
          };
          same_options = refl;
          same_token = refl;
        }
