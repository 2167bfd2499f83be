-- ===== src/Examples/Streams.antt =====
-- Streams over batches that are lists of rows, and the theorems of the stream at them.
use fsspec_data.Prelude.{
  ℕ, ◌+◌, ◌≤◌, ◌<◌, get_elem?, ◌≡◌, ◌≢◌, refl, true, false, none, some, List, [], ◌∷◌, length, take,
  drop, arith, All,
}
use fsspec_data.Errors.{stream_cancelled, byte_limit_exceeded, ok}
use fsspec_data.DataType.{null}
use fsspec_data.Arrow.{Arrow, done, failed}
use fsspec_data.Stream.{
  Tokens, StreamOptions, DecodedStream, Item, next, new, collect_batches, is_cancelled, cancel,
}
use fsspec_data.Stream.Rows.{RowLaws}
use fsspec_data.Stream.Steps.{IsStream, Steps}
use fsspec_data.Stream.Next.{next-Steps}
use fsspec_data.Stream.Collecting.{FitsOptions, batch_rows, collect_batches_lem}
use fsspec_data.Stream.Ending.{calls, next-cancel, calls_after_error}
use fsspec_data.Stream.Counting.{count_some, calls-count_some}
use fsspec_data.Stream.Bytes.{item_bytes, calls-item_bytes}
use fsspec_data.Stream.Sequences.{Takes, calls-Takes}
use fsspec_data.Examples.Toy.{Other, other_discrete, externals}

abbrev rows_toy : Arrow
rows_toy = record {
  external = externals;
  Other = Other;
  other_discrete = other_discrete;
  debug = λ t. "type";
  Field = Other;
  name = λ f. "field";
  field_type = λ f. null;
  is_nullable = λ f. false;
  Schema = Other;
  fields = λ s. [];
  schema_eq = λ s t. false;
  Array = Other;
  array_type = λ a. null;
  len = λ a. 0;
  is_null = λ a i. false;
  null_count = λ a. 0;
  new_null_array = λ t n. tt;
  cast_with_options = λ safe a t. failed 1;
  take = λ a is. failed 2;
  RecordBatch = List ℕ;
  schema = λ b. tt;
  columns = λ b. [];
  num_rows = λ b. length b;
  slice = λ b offset n. take n (drop offset b);
  memory_size = λ b. length b;
  try_new_with_options = λ s cs rows. failed 3;
}

abbrev rows_toy-RowLaws : RowLaws rows_toy
rows_toy-RowLaws = record {
  Row = ℕ;
  rows = λ b. b;
  length-rows = λ b. refl;
  rows-slice = λ b offset n h. refl;
}

abbrev two_rows : StreamOptions
two_rows = record { batch_size = 2; row_limit = some 4; byte_limit = none }

abbrev source : List (Item rows_toy)
source = done (1 ∷ 2 ∷ 3 ∷ []) ∷ done [] ∷ done (4 ∷ 5 ∷ []) ∷ []

abbrev stream : DecodedStream rows_toy
stream = record {
  schema = tt;
  source = source;
  options = two_rows;
  cancellation = 0;
  pending = none;
  emitted_rows = 0;
  emitted_bytes = 0;
  finished = false;
}

abbrev live : Tokens
live = false ∷ false ∷ []

collected :
    collect_batches rows_toy 6 live stream ≡ some (done ((1 ∷ 2 ∷ []) ∷ (3 ∷ []) ∷ (4 ∷ []) ∷ []))
unfolding collect_batches
collected = refl

stream-IsStream : IsStream rows_toy stream
stream-IsStream = record {
  batches = omega arith;
  row_limit_fits = λ l p. ground arith;
  within_rows = λ l p. omega arith;
  within_bytes = λ l p. omega arith;
}

next-Steps_example : Steps rows_toy rows_toy-RowLaws stream (next rows_toy live stream)
next-Steps_example = next-Steps rows_toy rows_toy-RowLaws live stream stream-IsStream

collect_batches_lem_example :
    (s : DecodedStream rows_toy) × (batches : List (List ℕ)) × (new rows_toy tt source two_rows 0
      ≡ ok s)
    × (collect_batches rows_toy 6 live s ≡ some (done batches))
    × All (FitsOptions rows_toy rows_toy-RowLaws two_rows) batches
    × (batch_rows rows_toy rows_toy-RowLaws batches ≡ 1 ∷ 2 ∷ 3 ∷ 4 ∷ [])
collect_batches_lem_example =
    collect_batches_lem rows_toy rows_toy-RowLaws tt source two_rows 0 live 6 (omega arith)
      (λ l p. ground arith) refl (tt, (tt, (tt, tt))) (unfold is_cancelled in refl) (omega arith)

abbrev interleaved : List Tokens
interleaved = live ∷ live ∷ (true ∷ false ∷ []) ∷ live ∷ []

calls-Takes_example : Takes rows_toy rows_toy-RowLaws stream (calls rows_toy interleaved stream)
calls-Takes_example = calls-Takes rows_toy rows_toy-RowLaws interleaved stream stream-IsStream

next-cancel_example :
    ((stream.cancellation ≡ 0)
      → stream.finished ≡ false
      → next rows_toy (cancel 0 live) stream
        ≡ (some (failed stream_cancelled), record stream { finished = true }))
    × ((stream.cancellation ≢ 0) → next rows_toy (cancel 0 live) stream ≡ next rows_toy live stream)
next-cancel_example = next-cancel rows_toy live 0 stream (omega arith)

abbrev small : DecodedStream rows_toy
small = record stream { options = record { batch_size = 2; row_limit = none; byte_limit = some 1 } }

abbrev small' : DecodedStream rows_toy
small' = record small {
  source = done [] ∷ done (4 ∷ 5 ∷ []) ∷ [];
  pending = some (1 ∷ 2 ∷ 3 ∷ [], 2);
  finished = true;
}

small_fails : next rows_toy live small ≡ (some (failed (byte_limit_exceeded 1 2)), small')
unfolding next
small_fails = refl

calls_after_error_example : calls rows_toy (live ∷ live ∷ []) small' ≡ none ∷ none ∷ []
calls_after_error_example =
    calls_after_error rows_toy live (live ∷ live ∷ []) small small' small_fails

calls-count_some_example :
    (count_some (calls rows_toy interleaved stream) ≤ 6)
    × (6 < 4 → (i : ℕ) × (get_elem? (calls rows_toy interleaved stream) i ≡ some none))
calls-count_some_example =
    calls-count_some rows_toy rows_toy-RowLaws interleaved stream stream-IsStream

abbrev four_bytes : DecodedStream rows_toy
four_bytes = record stream {
  options = record { batch_size = 2; row_limit = none; byte_limit = some 4 };
}

four_bytes-IsStream : IsStream rows_toy four_bytes
four_bytes-IsStream = record {
  batches = omega arith;
  row_limit_fits = λ l p. cc;
  within_rows = λ l p. cc;
  within_bytes = λ l p. omega arith;
}

calls-item_bytes_example : 0 + item_bytes rows_toy (calls rows_toy interleaved four_bytes) ≤ 4
calls-item_bytes_example =
    calls-item_bytes rows_toy rows_toy-RowLaws interleaved four_bytes 4 four_bytes-IsStream refl
      (omega arith)
