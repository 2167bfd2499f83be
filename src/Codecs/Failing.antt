-- ===== src/Codecs/Failing.antt =====
-- The errors of `decode`.
use fsspec_data.Prelude.{ℕ, ◌<◌, ◌≡◌, refl, false, Option, none, some, List, length, arith}
use fsspec_data.Errors.{InterchangeError, Result, ok, err}
use fsspec_data.Arrow.{Arrow}
use fsspec_data.Stream.{Tokens, DecodedStream, Item, default_options, new_token, new}
use fsspec_data.Stream.Rows.{RowLaws, source_rows}
use fsspec_data.Stream.Failing.{FailsWith, collect-Fails}
use fsspec_data.Registry.{BuiltIn}
use fsspec_data.Reader.{Bytes, ByteReader}
use fsspec_data.Decoding.{Formats}
use fsspec_data.Decoding.Opening.{opened}
use fsspec_data.Codecs.{decode}
use fsspec_data.Codecs.Whole.{decode_stream-opened, is_cancelled-new_token}

module _ (A : Arrow) (R : ByteReader A.external) (F : Formats A R) (laws : RowLaws A) where
  -- The format's reader fails with `e`: when it opens the source, or as its first failure later, which
  -- comes after fewer rows than there is fuel.
  pub data Faulty (fuel : ℕ) (e : InterchangeError A.external)
      (o : Result A.external (A.Schema × List (Item A))) : Type 0 where
    at_start : o ≡ err e → Faulty fuel e o
    later :
        (schema : A.Schema) (items : List (Item A))
        → o ≡ ok (schema, items)
        → FailsWith A e items
        → length (source_rows A laws items) < fuel
        → Faulty fuel e o

  -- Where the format's reader fails, when it opens the data or later, `decode` returns its first error and
  -- none of the batches before it, with more fuel than there are rows before the error.
  pub decode-Faulty :
      (codec : BuiltIn) (data' : Bytes) (given : Option A.Schema) (tokens : Tokens) (fuel : ℕ)
      (e : InterchangeError A.external)
      → Faulty fuel e (opened A R F codec given 1024 (R.cursor data'))
      → decode A R F fuel tokens codec data' given ≡ some (err e)
  unfolding decode new
  decode-Faulty codec data' given tokens fuel e (at_start h) =
      rw
        (
          decode,
          decode_stream-opened A R F codec given default_options (new_token tokens).0 data',
          h,
        )
        refl
  decode-Faulty codec data' given tokens fuel e (later schema items h fails enough) =
      let s : DecodedStream A = record {
        schema = schema;
        source = items;
        options = default_options;
        cancellation = (new_token tokens).0;
        pending = none;
        emitted_rows = 0;
        emitted_bytes = 0;
        finished = false;
      } in
      let runs =
        collect-Fails A e laws (new_token tokens).1 fuel s
          (record {
            batches = omega arith;
            row_limit_fits = λ l p. cc;
            within_rows = λ l p. cc;
            within_bytes = λ l p. cc;
          })
          (record {
            no_row_limit = refl;
            no_byte_limit = refl;
            not_cancelled = is_cancelled-new_token tokens;
            unfinished = refl;
          })
          fails enough in
      rw
        (
          decode,
          decode_stream-opened A R F codec given default_options (new_token tokens).0 data',
          h,
          runs,
        )
        refl
