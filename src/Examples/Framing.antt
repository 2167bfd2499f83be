-- ===== src/Examples/Framing.antt =====
-- A decoder of framed Avro values: a value is the number of its writer's schema and a row. The decoder
-- refuses the numbers that its store lacks, and reads of a value by another writer than that of the rows
-- it holds the number only, until they are flushed.
use mathlib.Core.List.{append-nil}
use fsspec_data.Prelude.{
  ℕ, ◌-◌, ◌<◌, ◌≤◌, ◌≡◌, ◌≢◌, refl, sym, ap, ◌∙◌, subst, Bool, Bool-cases, inl, inr, true, false,
  ◌||◌, ◌==◌, ltb, if◌then◌else◌, Option, none, some, List, [], ◌∷◌, ◌++◌, length, map, arith,
}
use fsspec_data.Arrow.{failed, Outcome, done}
use fsspec_data.Stateful.{done-injective}
use fsspec_data.Stream.Collecting.{batch_rows}
use fsspec_data.Reader.{Bytes}
use fsspec_data.AvroValues.{AvroLibrary}
use fsspec_data.AvroValues.Contents.{DecoderLaws, FlushedAs}
use fsspec_data.AvroValues.Values.{Between, Readable, at_once, after_prefix}
use fsspec_data.Examples.Tables.{Table, tables, tables-RowLaws}

-- A decoder: its store of writers, the writer of the rows it holds, whether it has read a number and
-- not yet the row, whether its values are bare rows, and with how many rows it is not yet full.
pub record Framed : Type 0 where
  pub known : List ℕ
  pub active : ℕ
  pub pending : Bool
  pub bare : Bool
  pub limit : ℕ
  pub rows : List ℕ

abbrev pub is_known : ℕ → List ℕ → Bool
is_known id [] = false
is_known id (other ∷ ids) = (id == other) || is_known id ids

abbrev is_none : List ℕ → Bool
is_none [] = true
is_none (row ∷ rows) = false

abbrev read_row : Bytes → Framed → Outcome ℕ ℕ × Framed
read_row [] d = (done 0, record d { pending = true })
read_row (row ∷ rest) d = (done 1, record d { pending = d.bare; rows = d.rows ++ row ∷ [] })

abbrev read_value : ℕ → Bytes → Framed → Outcome ℕ ℕ × Framed
read_value id [] d = (done 1, record d { active = id; pending = true })
read_value id (row ∷ rest) d =
    (done 2, record d { active = id; pending = d.bare; rows = d.rows ++ row ∷ [] })

abbrev read_known : ℕ → Bytes → Bool → Framed → Outcome ℕ ℕ × Framed
read_known id body true d = read_value id body d
read_known id body false d = (done 1, record d { active = id; pending = true })

abbrev read_framed : Bytes → Framed → Outcome ℕ ℕ × Framed
read_framed [] d = (done 0, d)
read_framed (id ∷ body) d =
    if is_known id d.known
    then read_known id body ((id == d.active) || is_none d.rows) d
    else (failed 40, d)

abbrev decoded_when : Bool → Bytes → Framed → Outcome ℕ ℕ × Framed
decoded_when true value d = read_row value d
decoded_when false value d = read_framed value d

abbrev pub decoded : Bytes → Framed → Outcome ℕ ℕ × Framed
decoded value d = decoded_when d.pending value d

abbrev taken : List ℕ → Option Table
taken [] = none
taken (row ∷ rows) = some (0, row ∷ rows)

abbrev flushed : Framed → Outcome ℕ (Option Table) × Framed
flushed d = (done (taken d.rows), record d { rows = [] })

abbrev pub rebuild : ℕ → List (List ℕ) → Outcome ℕ Table
rebuild schema (c ∷ []) = done (schema, c)
rebuild schema _ = failed 6

-- An encoder is what it puts before each row, and what it has put out.
abbrev pub prefixed : Bytes → ℕ → Bytes
prefixed prefix row = prefix ++ row ∷ []

abbrev pub library : AvroLibrary tables
library = record {
  Fault = ℕ;
  to_arrow = λ e. e;
  bytes_after_datum = λ n. n;
  Decoder = Framed;
  schema = λ d. 0;
  batch_is_full = λ d. ltb d.limit (length d.rows);
  decode = decoded;
  flush = flushed;
  Store = List ℕ;
  Fingerprint = ℕ;
  new_store = [];
  new_id_store = [];
  register = λ schema s. (done 1, 1 ∷ s);
  set_id = λ id schema s. (done tt, id ∷ s);
  Builder = Framed;
  builder = λ n schema. record {
    known = [];
    active = 0;
    pending = false;
    bare = false;
    limit = n - 1;
    rows = [];
  };
  with_writer_schema_store = λ s b. record b { known = s };
  with_active_fingerprint = λ f b. record b { active = f };
  unframed_datum = λ b. record b { pending = true; bare = true };
  build_decoder = λ b. done (record b { rows = [] });
  concat_batches = λ schema bs. done (schema, batch_rows tables tables-RowLaws bs);
  Encoder = Bytes × List Bytes;
  with_avro_schema = λ text schema. schema;
  build_soe_encoder = λ schema id. done (id ∷ [], []);
  build_binary_encoder = λ schema. done ([], []);
  encode = λ b e. (done tt, (e.0, e.1 ++ map (prefixed e.0) b.1));
  flush_rows = λ e. (e.1, (e.0, []));
  try_new = rebuild;
}

abbrev pub Decodes : Bytes → Framed → Framed → ℕ → Type 0
Decodes value d d' consumed =
    (new : List ℕ) × (d'.rows ≡ d.rows ++ new)
    × (◌≡◌ {A = ℕ} 0 0)
    × (consumed ≤ length value)
    × (consumed ≡ 0 → 0 < length value → new ≡ [])

taking :
    (value : Bytes) (d d1 d' : Framed) (n consumed : ℕ) (new : List ℕ)
    → (◌≡◌ {A = Outcome ℕ ℕ × Framed} (done n, d1) (done consumed, d'))
    → d1.rows ≡ d.rows ++ new
    → n ≤ length value
    → (n ≡ 0 → 0 < length value → new ≡ [])
    → Decodes value d d' consumed
taking value d d1 d' n consumed new h rows le none_read =
    let same : n ≡ consumed = done-injective n consumed (ap (λ r. r.0) h) in
    (
      new,
      ap (λ r. r.1.rows) (sym h) ∙ rows,
      refl,
      omega (arith, same, le),
      λ z. none_read (same ∙ z),
    )

read_row-Decodes :
    (value : Bytes) (d d' : Framed) (consumed : ℕ)
    → read_row value d ≡ (done consumed, d')
    → Decodes value d d' consumed
read_row-Decodes [] d d' consumed h =
    taking [] d _ d' 0 consumed [] h (sym (append-nil d.rows)) (omega arith) (λ z p. refl)
read_row-Decodes (row ∷ rest) d d' consumed h =
    taking (row ∷ rest) d _ d' 1 consumed (row ∷ []) h refl (omega arith)
      (λ z. absurd (omega (arith, z)))

read_known-Decodes :
    (id : ℕ) (body : Bytes) (same : Bool) (d d' : Framed) (consumed : ℕ)
    → read_known id body same d ≡ (done consumed, d')
    → Decodes (id ∷ body) d d' consumed
read_known-Decodes id [] true d d' consumed h =
    taking (id ∷ []) d _ d' 1 consumed [] h (sym (append-nil d.rows)) (omega arith) (λ z p. refl)
read_known-Decodes id (row ∷ rest) true d d' consumed h =
    taking (id ∷ row ∷ rest) d _ d' 2 consumed (row ∷ []) h refl (omega arith)
      (λ z. absurd (omega (arith, z)))
read_known-Decodes id body false d d' consumed h =
    taking (id ∷ body) d _ d' 1 consumed [] h (sym (append-nil d.rows)) (omega arith) (λ z p. refl)

read_framed-Decodes :
    (value : Bytes) (d d' : Framed) (consumed : ℕ)
    → read_framed value d ≡ (done consumed, d')
    → Decodes value d d' consumed
read_framed-Decodes [] d d' consumed h =
    taking [] d d d' 0 consumed [] h (sym (append-nil d.rows)) (omega arith) (λ z p. refl)
read_framed-Decodes (id ∷ body) d d' consumed h = elim (Bool-cases (is_known id d.known)) [
  | inl e ↦ read_known-Decodes id body _ d d' consumed (rw e at h)
  | inr e ↦ cc (ap (λ r. r.0) (rw e at h))
]

pub decoded-Decodes :
    (pending : Bool) (value : Bytes) (d d' : Framed) (consumed : ℕ)
    → decoded_when pending value d ≡ (done consumed, d')
    → Decodes value d d' consumed
decoded-Decodes true value d d' consumed h = read_row-Decodes value d d' consumed h
decoded-Decodes false value d d' consumed h = read_framed-Decodes value d d' consumed h

pub taken-FlushedAs : (rows : List ℕ) → FlushedAs tables library tables-RowLaws 0 rows (taken rows)
taken-FlushedAs [] = refl
taken-FlushedAs (row ∷ rows) = (refl, refl, λ q. cc)

abbrev pub library-DecoderLaws : DecoderLaws tables library tables-RowLaws
library-DecoderLaws = record {
  held = λ d. d.rows;
  flushes = λ d. (taken d.rows, record d { rows = [] }, refl, taken-FlushedAs d.rows, refl, refl);
  not_full = λ d h. rw h (ground arith);
  decodes = λ value d d' consumed h. decoded-Decodes d.pending value d d' consumed h;
  concats = λ schema bs h. ((schema, batch_rows tables tables-RowLaws bs), refl, refl, refl);
}

-- The framed decoders of these writers, between two values.
abbrev pub between : List ℕ → Between tables library
between ids = record {
  ready = λ d. (d.pending ≡ false) × (d.bare ≡ false) × (d.known ≡ ids);
  stays = λ d d' batch h e.
      subst (λ d. (d.pending ≡ false) × (d.bare ≡ false) × (d.known ≡ ids)) (ap (λ r. r.1) e) h;
}

-- A value by a writer of the store is read.
pub known-Readable :
    (ids : List ℕ) (id row : ℕ)
    → is_known id ids ≡ true
    → Readable tables library tables-RowLaws library-DecoderLaws
        (between ids)
        true
        (id ∷ row ∷ [])
        (row ∷ [])
known-Readable ids id row known d (pending, bare, store) full =
    elim (Bool-cases ((id == d.active) || is_none d.rows)) [
      | inl e ↦
          at_once (record d { active = id; pending = d.bare; rows = d.rows ++ row ∷ [] })
            (rw (pending, store, known, e) refl) refl (bare, bare, store)
      | inr e ↦
          after_prefix 1 (record d { active = id; pending = true }) refl
            (rw (pending, store, known, e) refl) (omega arith) refl
            (λ q. absurd (some_rows d.rows e q))
            (λ batch d'' h.
              subst
                (λ d''.
                  (d3 : Framed) × (decoded (row ∷ []) d'' ≡ (done 1, d3))
                  × (d3.rows ≡ row ∷ [])
                  × ((d3.pending ≡ false) × (d3.bare ≡ false) × (d3.known ≡ ids)))
                (ap (λ r. r.1) h) (_, refl, refl, (bare, bare, store)))
    ]
  where
    some_rows : (rows : List ℕ) → ((id == d.active) || is_none rows) ≡ false → rows ≢ []
    some_rows [] e q = ground arith
    some_rows (r ∷ rows) e q = cc
