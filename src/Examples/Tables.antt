-- ===== src/Examples/Tables.antt =====
-- Batches of numbers under numbered schemas, a byte reader over a list, a format that writes the number
-- of the schema and then the rows, and one that writes the rows alone.
use mathlib.Core.List.{append-nil}
use fsspec_data.Prelude.{
  ◌%◌, map, true, Bool-cases, inl, inr, ℕ, suc, ◌<◌, ◌+◌, ◌-◌, ◌≡◌, refl, sym, ap, ◌∙◌, false, ◌==◌,
  ltb, Option, none, some, List, [], ◌∷◌, ◌++◌, length, take, drop, replicate, All, arith,
  if◌then◌else◌,
}
use fsspec_data.Errors.{ok, arrow, ok-injective}
use fsspec_data.DataType.{null}
use fsspec_data.Arrow.{Arrow, Outcome, done, failed}
use fsspec_data.Arrow.Laws.{ArrowLaws, FitsFields}
use fsspec_data.Stream.{Item}
use fsspec_data.Stream.Sound.{IsDone}
use fsspec_data.Stream.Rows.{RowLaws, source_rows}
use fsspec_data.Registry.{csv_codec}
use fsspec_data.Codec.{Encoder}
use fsspec_data.Reader.{Bytes, ByteReader, ℤ, pos, negsuc, SeekFrom, start, current, end}
use fsspec_data.Decoding.{Formats, required_schema}
use fsspec_data.Decoding.Opening.{opened}
use fsspec_data.Stateful.{done-injective}
use fsspec_data.Codecs.{Encoders}
use fsspec_data.Codecs.RoundTrip.{ReadsBack}
use fsspec_data.Examples.Toy.{Other, other_discrete, externals}

abbrev pub Table : Type 0
Table = ℕ × List ℕ

abbrev built : ℕ → List (List ℕ) → ℕ → Outcome ℕ Table
built schema [] rows = failed 3
built schema (c ∷ []) rows = if length c == rows then done (schema, c) else failed 3
built schema (c ∷ d ∷ cs) rows = failed 3

abbrev pub tables : Arrow
tables = record {
  external = externals;
  Other = Other;
  other_discrete = other_discrete;
  debug = λ t. "type";
  Field = Other;
  name = λ f. "field";
  field_type = λ f. null;
  is_nullable = λ f. true;
  Schema = ℕ;
  fields = λ s. tt ∷ [];
  schema_eq = λ s t. s == t;
  Array = List ℕ;
  array_type = λ a. null;
  len = λ a. length a;
  is_null = λ a i. false;
  null_count = λ a. 0;
  new_null_array = λ t n. replicate n 0;
  cast_with_options = λ safe a t. failed 1;
  take = λ a is. failed 2;
  RecordBatch = Table;
  schema = λ b. b.0;
  columns = λ b. b.1 ∷ [];
  num_rows = λ b. length b.1;
  slice = λ b offset n. (b.0, take n (drop offset b.1));
  memory_size = λ b. length b.1;
  try_new_with_options = built;
}

abbrev pub tables-RowLaws : RowLaws tables
tables-RowLaws = record {
  Row = ℕ;
  rows = λ b. b.1;
  length-rows = λ b. refl;
  rows-slice = λ b offset n h. refl;
}

fitting :
    (s : ℕ) (cs : List (List ℕ)) (rows : ℕ)
    → FitsFields tables rows (tt ∷ []) cs
    → (b : Table) × (built s cs rows ≡ done b)
fitting s [] rows h = elim h [ ]
fitting s (c ∷ []) rows h =
    let fits : (length c == rows) ≡ true = ground (arith, h.0.of_length) in ((s, c), rw fits refl)
fitting s (c ∷ d ∷ cs) rows h = elim h.1 [ ]

holding :
    (s : ℕ) (cs : List (List ℕ)) (rows : ℕ) (b : Table)
    → built s cs rows ≡ done b
    → (b.0 ≡ s) × (b.1 ∷ [] ≡ cs) × (length b.1 ≡ rows) × FitsFields tables rows (tt ∷ []) cs
holding s [] rows b h = cc
holding s (c ∷ []) rows b h = elim (Bool-cases (length c == rows)) [
  | inr e ↦ cc (rw e at h)
  | inl e ↦
      let made : (s, c) ≡ b = done-injective (s, c) b (rw e at h) in
      let fits : length c ≡ rows = ground arith in
      (
        ap (λ b. b.0) (sym made),
        ap (λ b. b.1 ∷ []) (sym made),
        ap (λ b. length b.1) (sym made) ∙ fits,
        (record { of_type = refl; of_length = fits; no_nulls = λ n. refl }, tt),
      )
]
holding s (c ∷ d ∷ cs) rows b h = cc

pub tables-ArrowLaws : ArrowLaws tables
tables-ArrowLaws = record {
  schema_eq_iff = λ s t. (λ h. ground arith, λ h. ground arith);
  cast_type = λ safe a b t e. cc;
  cast_nulls = λ a b t n e z. refl;
  try_new_fits = fitting;
  try_new_holds = holding;
}

-- The bytes of a file, and the position in it.
pub record Cursor : Type 0 where
  pub file : Bytes
  pub at : ℕ

abbrev sought : Cursor → Option ℕ → Outcome ℕ ℕ × Cursor
sought s none = (failed 9, s)
sought s (some n) = (done n, record s { at = n })

abbrev offset : ℕ → ℤ → Option ℕ
offset n (pos k) = some (n + k)
offset n (negsuc k) = if ltb k n then some (n - suc k) else none

abbrev target : Cursor → SeekFrom → Option ℕ
target s (start n) = some n
target s (current k) = offset s.at k
target s (end k) = offset (length s.file) k

abbrev pub cursors : ByteReader externals
cursors = record {
  State = Cursor;
  read = λ n s.
      let bytes = take n (drop s.at s.file) in (done bytes, record s { at = s.at + length bytes });
  seek = λ from s. sought s (target s from);
  read_exact = λ n s.
      if ltb (length s.file) (s.at + n)
      then (failed 5, s)
      else (done (take n (drop s.at s.file)), record s { at = s.at + n });
  read_to_end = λ s. (done (drop s.at s.file), record s { at = length s.file });
  cursor = λ bytes. record { file = bytes; at = 0 };
}

-- The byte that is written for a row: rows above 255 are cut to it.
abbrev in_byte : ℕ → ℕ
in_byte row = row % 256

-- The formats: the number of the schema where the format has its own, and a row for each byte after it.
abbrev pub rows_encoder : Encoder tables
rows_encoder = record {
  State = List ℕ;
  output = λ s. s;
  Fault = ℕ;
  convert = λ e. arrow e;
  try_new = λ schema. done (schema ∷ []);
  build = [];
  write = λ s b. done (s ++ map in_byte b.1);
  flush = λ s. done s;
  finish = λ s. done s;
  spoiled = λ s b. s;
}

abbrev pub encoders : Encoders tables
encoders = record {
  ipc = rows_encoder;
  parquet = rows_encoder;
  csv = rows_encoder;
  json_lines = rows_encoder;
  avro = rows_encoder;
}

abbrev Opened : Type 0
Opened = Outcome ℕ (ℕ × List (Outcome ℕ Table))

abbrev open_rows : Bytes → Opened
open_rows [] = failed 7
open_rows (schema ∷ rows) = done (schema, done (schema, rows) ∷ [])

abbrev items_of : Opened → Outcome ℕ (List (Outcome ℕ Table))
items_of (done o) = done o.1
items_of (failed e) = failed e

abbrev pub formats : Formats tables cursors
formats = record {
  ipc_try_new = λ s. open_rows (drop s.at s.file);
  Builder = Cursor;
  parquet_try_new = λ c. done c.reader;
  with_batch_size = λ n b. b;
  builder_schema = λ b. 0;
  build = λ b. items_of (open_rows (drop b.at b.file));
  csv_build = λ schema header n s. done (done (schema, drop s.at s.file) ∷ []);
  json_build = λ schema n s. done (done (schema, drop s.at s.file) ∷ []);
  avro_build = λ n s. open_rows (drop s.at s.file);
}

pub csv-reads :
    (schema : ℕ) (s rs : List ℕ)
    → s ≡ rs
    → (items : List (Item tables)) × (opened tables cursors formats csv_codec
          (some schema)
          1024
          (cursors.cursor s)
        ≡ ok (schema, items))
      × All (IsDone tables) items
      × (source_rows tables tables-RowLaws items ≡ rs)
unfolding required_schema
csv-reads schema s rs same = (done (schema, s) ∷ [], refl, (tt, tt), append-nil s ∙ same)

pub bytes_kept : (rows : List ℕ) → All (λ row. row < 256) rows → map in_byte rows ≡ rows
bytes_kept [] h = refl
bytes_kept (row ∷ rows) h =
    let same : row % 256 ≡ row = omega (arith, h.0) in rw (same, bytes_kept rows h.1) refl

-- A row is represented where it is a byte.
abbrev pub csv-ReadsBack :
    (schema : ℕ) → ReadsBack tables encoders cursors formats tables-RowLaws csv_codec schema
csv-ReadsBack schema = record {
  kept = schema;
  Represents = λ row. row < 256;
  Given = λ s rs. s ≡ rs;
  Closed = λ s rs. s ≡ rs;
  begins = λ s e. sym (ok-injective [] s e);
  writes = λ s s' b rs g h r e.
      sym (done-injective (s ++ map in_byte b.1) s' e)
      ∙ ap (λ rows. s ++ rows) (bytes_kept b.1 r)
      ∙ ap (λ rows. rows ++ b.1) g;
  flushes = λ s s' rs g e. sym (done-injective s s' e) ∙ g;
  ends = λ s s' rs g e. sym (ok-injective s s' e) ∙ g;
  reads = csv-reads schema;
}
