-- ===== src/Stream/Sequences.antt =====
-- Any sequence of calls of `next`, with cancellations between them.
use fsspec_data.Prelude.{
  ℕ, ◌+◌, ◌≤◌, ◌≡◌, refl, sym, ap, ◌∙◌, inl, inr, true, Option, none, some, List, [], ◌∷◌, ◌++◌,
  length, length-append, arith,
}
use mathlib.Core.List.{append_assoc}
use fsspec_data.Arrow.{Arrow, done, failed}
use fsspec_data.Stream.{Tokens, DecodedStream, Item, next}
use fsspec_data.Stream.Rows.{RowLaws}
use fsspec_data.Stream.Steps.{IsStream, Steps, Yields, Ends, rows_left}
use fsspec_data.Stream.Next.{next-Steps}
use fsspec_data.Stream.Ending.{calls, all_none, calls_finished}

module _ (A : Arrow) (laws : RowLaws A) where
  -- the rows of the batches that the calls returned
  abbrev pub item_rows : List (Option (Item A)) → List laws.Row
  item_rows [] = []
  item_rows (none ∷ items) = item_rows items
  item_rows (some (done b) ∷ items) = laws.rows b ++ item_rows items
  item_rows (some (failed e) ∷ items) = item_rows items

  item_rows_none : (later : List Tokens) → item_rows (all_none A later) ≡ []
  item_rows_none [] = refl
  item_rows_none (tokens ∷ later) = item_rows_none later

  -- The rows come from the front of what is left, and stay within the limit.
  pub record Takes (s : DecodedStream A) (items : List (Option (Item A))) : Type 0 where
    pub rest : List laws.Row
    pub in_order : item_rows items ++ rest ≡ rows_left A laws s
    pub bounded :
        (l : ℕ) → s.options.row_limit ≡ some l → s.emitted_rows + length (item_rows items) ≤ l

  no_rows-Takes :
      (s : DecodedStream A) (items : List (Option (Item A)))
      → IsStream A s
      → item_rows items ≡ []
      → Takes s items
  no_rows-Takes s items w e = record {
    rest = rows_left A laws s;
    in_order = ap (λ xs. xs ++ rows_left A laws s) e;
    bounded = λ l p. omega (arith, w.within_rows l p, ap length e);
  }

  append-nil_left : (xs ys : List laws.Row) → xs ++ ys ≡ [] → xs ≡ []
  append-nil_left [] ys h = refl
  append-nil_left (x ∷ xs) ys h = cc

  round :
      (tokens : Tokens) (later : List Tokens) (s : DecodedStream A) (item : Option (Item A))
      → (next A tokens s).0 ≡ item
      → IsStream A s
      → Steps A laws s (next A tokens s)
      → Takes (next A tokens s).1 (calls A later (next A tokens s).1)
      → Takes s (item ∷ calls A later (next A tokens s).1)
  round tokens later s none e w steps later_takes =
      let returns : Ends A laws s × _ = rw e at steps.returns in
      no_rows-Takes s _ w (elim returns.1 [
        | inl f ↦ ap item_rows (calls_finished A later _ f) ∙ item_rows_none later
        | inr z ↦ append-nil_left _ later_takes.rest (later_takes.in_order ∙ z)
      ])
  round tokens later s (some (failed x)) e w steps later_takes =
      let stops : (next A tokens s).1.finished ≡ true = rw e at steps.returns in
      no_rows-Takes s _ w (ap item_rows (calls_finished A later _ stops) ∙ item_rows_none later)
  round tokens later s (some (done b)) e w steps later_takes =
      let y : Yields A laws s (next A tokens s).1 b = rw e at steps.returns in
      record {
        rest = later_takes.rest;
        in_order =
            append_assoc (laws.rows b) _ later_takes.rest
            ∙ ap (λ xs. laws.rows b ++ xs) later_takes.in_order
            ∙ sym y.next_rows;
        bounded = λ l p. omega (
          arith,
          w.row_limit_fits l p,
          y.in_limit l p,
          y.counted,
          laws.length-rows b,
          later_takes.bounded l (rw steps.same_options p),
          length-append (laws.rows b) (item_rows (calls A later (next A tokens s).1)),
        );
      }

  -- Whatever is cancelled between the calls of a sequence, on a stream within its limits the rows that
  -- the calls return are the first of the rows left, in order, and with the rows so far they stay
  -- within the row limit.
  pub calls-Takes :
      (later : List Tokens) (s : DecodedStream A) → IsStream A s → Takes s (calls A later s)
  calls-Takes [] s w = no_rows-Takes s [] w refl
  calls-Takes (tokens ∷ later) s w =
      let steps = next-Steps A laws tokens s w in
      round tokens later s (next A tokens s).0 refl w steps
        (calls-Takes later (next A tokens s).1 steps.stays)
