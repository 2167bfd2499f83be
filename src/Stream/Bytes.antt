-- ===== src/Stream/Bytes.antt =====
-- The bytes of the batches that a stream yields, under a byte limit.
use fsspec_data.Prelude.{
  ℕ, ◌+◌, ◌≤◌, ◌<◌, ◌≡◌, refl, ◌==◌, Bool-cases, Option-cases, inl, inr, ltb, Option, none, some,
  List, [], ◌∷◌, arith,
}
use fsspec_data.Arrow.{Arrow, done, failed}
use fsspec_data.Stream.{
  Tokens, DecodedStream, Item, Found, found, exhausted, broken, search, next, proceed, emit,
  account, reaches, yield_length, yielded, is_cancelled, saturating_add, usize_max,
}
use fsspec_data.Stream.Rows.{RowLaws}
use fsspec_data.Stream.Steps.{IsStream}
use fsspec_data.Stream.Next.{next-Steps}
use fsspec_data.Stream.Ending.{calls}

module _ (A : Arrow) where
  -- The count of bytes before and after a call that returns the item.
  abbrev Adds : ℕ → Option (Item A) → ℕ → Type 0
  Adds before none after = after ≡ before
  Adds before (some (failed e)) after = after ≡ before
  Adds before (some (done b)) after = after ≡ saturating_add before (A.memory_size b)

  -- What a call counts.
  record Counts (before : ℕ) (r : Option (Item A) × DecodedStream A) : Type 0 where
    pub adds : Adds before r.0 r.1.emitted_bytes

  account-Counts :
      (s : DecodedStream A) (output : A.RecordBatch) → Counts s.emitted_bytes (account A s output)
  unfolding account
  account-Counts s output = elim (Option-cases s.options.byte_limit) [
    | inl e ↦ rw (account, e) (record { adds = refl })
    | inr (limit, e) ↦
        elim (Bool-cases (ltb limit (saturating_add s.emitted_bytes (A.memory_size output)))) [
          | inl over ↦ rw (account, e, over) (record { adds = refl })
          | inr fits ↦ rw (account, e, fits) (record { adds = refl })
        ]
  ]

  emit-Counts :
      (s : DecodedStream A) (b : A.RecordBatch) (offset : ℕ)
      → Counts s.emitted_bytes (emit A s b offset)
  unfolding emit
  emit-Counts s b offset = elim (Bool-cases (yield_length A s b offset == 0)) [
    | inl e ↦ simp e (record { adds = refl })
    | inr e ↦ simp e (account-Counts (record s { pending = _ }) (yielded A b offset _))
  ]

  proceed-Counts : (s : DecodedStream A) (f : Found A) → Counts s.emitted_bytes (proceed A s f)
  unfolding proceed
  proceed-Counts s (found b offset source) =
      emit-Counts (record s { pending = none; source = source }) b offset
  proceed-Counts s exhausted = (record { adds = refl })
  proceed-Counts s (broken e source) = (record { adds = refl })

  next-Counts : (tokens : Tokens) (s : DecodedStream A) → Counts s.emitted_bytes (next A tokens s)
  unfolding next
  next-Counts tokens s = elim (Bool-cases s.finished) [
    | inl e ↦ simp e (record { adds = refl })
    | inr f ↦ elim (Bool-cases (is_cancelled s.cancellation tokens)) [
      | inl e ↦ simp (f, e) (record { adds = refl })
      | inr c ↦ elim (Bool-cases (reaches s.emitted_rows s.options.row_limit)) [
        | inl e ↦ simp (f, c, e) (record { adds = refl })
        | inr free ↦ simp (f, c, free) (proceed-Counts s (search A s.pending s.source))
      ]
    ]
  ]

  -- the bytes of the batches that the calls returned
  abbrev pub item_bytes : List (Option (Item A)) → ℕ
  item_bytes [] = 0
  item_bytes (none ∷ items) = item_bytes items
  item_bytes (some (done b) ∷ items) = A.memory_size b + item_bytes items
  item_bytes (some (failed e) ∷ items) = item_bytes items

  Adds-bytes :
      (before after l : ℕ) (item : Option (Item A)) (items : List (Option (Item A)))
      → Adds before item after
      → l < usize_max
      → after ≤ l
      → after + item_bytes items ≤ l
      → before + item_bytes (item ∷ items) ≤ l
  Adds-bytes before after l none items h top within rest = omega (arith, h, rest)
  Adds-bytes before after l (some (failed e)) items h top within rest = omega (arith, h, rest)
  Adds-bytes before after l (some (done b)) items h top within rest =
      omega (arith, h, rest, top, within)

  module _ (laws : RowLaws A) where
    -- Whatever is cancelled between the calls of a sequence, on a stream within its limits whose byte
    -- limit is below the largest `usize`, the batches that the calls return have, with the bytes so far,
    -- no more bytes than the limit.
    pub calls-item_bytes :
        (later : List Tokens) (s : DecodedStream A) (l : ℕ)
        → IsStream A s
        → s.options.byte_limit ≡ some l
        → l < usize_max
        → s.emitted_bytes + item_bytes (calls A later s) ≤ l
    calls-item_bytes [] s l w limit top = omega (arith, w.within_bytes l limit)
    calls-item_bytes (tokens ∷ later) s l w limit top =
        let steps = next-Steps A laws tokens s w in
        let limit' : (next A tokens s).1.options.byte_limit ≡ some l =
          rw steps.same_options limit in
        Adds-bytes s.emitted_bytes (next A tokens s).1.emitted_bytes l (next A tokens s).0
          (calls A later (next A tokens s).1) (next-Counts tokens s).adds top
          (steps.stays.within_bytes l limit')
          (calls-item_bytes later (next A tokens s).1 l steps.stays limit' top)
