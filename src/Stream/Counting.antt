-- ===== src/Stream/Counting.antt =====
-- How many items a stream returns.
use fsspec_data.Prelude.{
  ℕ, zero, suc, ◌≤◌, ◌<◌, ◌≡◌, refl, ap, ◌∙◌, inl, inr, true, Option, none, some, List, [], ◌∷◌,
  length, length-append, get_elem?, arith,
}
use fsspec_data.Arrow.{Arrow, done, failed}
use fsspec_data.Stream.{Tokens, DecodedStream, Item, next}
use fsspec_data.Stream.Rows.{RowLaws}
use fsspec_data.Stream.Steps.{IsStream, Steps, Yields, Ends, rows_left}
use fsspec_data.Stream.Next.{next-Steps}
use fsspec_data.Stream.Ending.{calls, all_none, calls_finished}

module _ {B : Type 0} where
  -- the calls that returned an item
  abbrev pub count_some : List (Option B) → ℕ
  count_some [] = 0
  count_some (none ∷ items) = count_some items
  count_some (some b ∷ items) = suc (count_some items)

  count_some-none :
      (items : List (Option B))
      → count_some items < length items
      → (i : ℕ) × (get_elem? items i ≡ some none)
  count_some-none [] h = absurd (omega (arith, h))
  count_some-none (none ∷ items) h = (zero, refl)
  count_some-none (some b ∷ items) h =
      let (i, e) = count_some-none items (omega (arith, h)) in (suc i, e)

module _ (A : Arrow) (laws : RowLaws A) where
  count_all_none : (later : List Tokens) → count_some (all_none A later) ≡ 0
  count_all_none [] = refl
  count_all_none (tokens ∷ later) = count_all_none later

  count_finished :
      (later : List Tokens) (s : DecodedStream A)
      → s.finished ≡ true
      → count_some (calls A later s) ≡ 0
  count_finished later s f = ap count_some (calls_finished A later s f) ∙ count_all_none later

  length-calls :
      (later : List Tokens) (s : DecodedStream A) → length (calls A later s) ≡ length later
  length-calls [] s = refl
  length-calls (tokens ∷ later) s = ap suc (length-calls later (next A tokens s).1)

  abbrev Counts : DecodedStream A → List (Option (Item A)) → Type 0
  Counts s items = count_some items ≤ suc (length (rows_left A laws s))

  round :
      (tokens : Tokens) (later : List Tokens) (s : DecodedStream A) (item : Option (Item A))
      → (next A tokens s).0 ≡ item
      → Steps A laws s (next A tokens s)
      → Counts (next A tokens s).1 (calls A later (next A tokens s).1)
      → Counts s (item ∷ calls A later (next A tokens s).1)
  round tokens later s none e steps counted =
      let returns : Ends A laws s × _ = rw e at steps.returns in
      let s' = (next A tokens s).1 in
      let few : count_some (calls A later s') ≤ suc (length (rows_left A laws s)) = elim returns.1 [
        | inl f ↦ omega (arith, count_finished later s' f)
        | inr z ↦
            let nothing : length (rows_left A laws s') ≡ 0 = ap length z in
            omega (arith, counted, nothing)
      ] in
      few
  round tokens later s (some (failed x)) e steps counted =
      let stops : (next A tokens s).1.finished ≡ true = rw e at steps.returns in
      omega (arith, count_finished later (next A tokens s).1 stops)
  round tokens later s (some (done b)) e steps counted =
      let y : Yields A laws s (next A tokens s).1 b = rw e at steps.returns in
      omega (
        arith,
        counted,
        y.some_rows,
        laws.length-rows b,
        ap length y.next_rows,
        length-append (laws.rows b) (rows_left A laws (next A tokens s).1),
      )

  calls-Counts :
      (later : List Tokens) (s : DecodedStream A) → IsStream A s → Counts s (calls A later s)
  calls-Counts [] s w = omega arith
  calls-Counts (tokens ∷ later) s w =
      let steps = next-Steps A laws tokens s w in
      round tokens later s (next A tokens s).0 refl steps
        (calls-Counts later (next A tokens s).1 steps.stays)

  -- However often `next` is called on a stream within its limits, and whatever is cancelled between the
  -- calls, it returns at most one item more than it has rows left; so a longer sequence of calls has one
  -- that returns `none`.
  pub calls-count_some :
      (later : List Tokens) (s : DecodedStream A)
      → IsStream A s
      → (count_some (calls A later s) ≤ suc (length (rows_left A laws s)))
        × (suc (length (rows_left A laws s)) < length later
            → (i : ℕ) × (get_elem? (calls A later s) i ≡ some none))
  calls-count_some later s w =
      let counts = calls-Counts later s w in
      (
        counts,
        λ long.
            count_some-none (calls A later s) (omega (arith, counts, long, length-calls later s)),
      )
