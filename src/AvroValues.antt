-- ===== src/AvroValues.antt =====
-- rust/src/avro.rs: single Avro values decoded into batches and encoded from them.
pub mod Contents
pub mod Flushing
pub mod Pushing
pub mod Ends
pub mod Values
pub mod Sequences
pub mod RoundTrip
use fsspec_data.Prelude.{
  ℕ, zero, suc, ◌+◌, ◌-◌, String, Bool, true, false, ◌&&◌, ◌==◌, ltb, Option, none, some, List, [],
  ◌∷◌, ◌++◌, length, drop, if◌then◌else◌,
}
use fsspec_data.Errors.{InterchangeError, arrow}
use fsspec_data.Arrow.{Arrow, Outcome, done, failed}
use fsspec_data.Reader.{Bytes}
use fsspec_data.Stateful.{M, pure, raise, ◌>>=◌, ◌>>◌}

-- What the source takes from arrow-avro, and `concat_batches` and `RecordBatch::try_new` of arrow.
pub record AvroLibrary (A : Arrow) : Type 1 where
  -- `AvroError`, and its `ArrowError::from`
  pub Fault : Type 0
  pub to_arrow : Fault → A.external.ArrowError
  -- `ArrowError::ParseError` with the text of `push` for so many bytes
  pub bytes_after_datum : ℕ → A.external.ArrowError
  -- `Decoder`
  pub Decoder : Type 0
  pub schema : Decoder → A.Schema
  pub batch_is_full : Decoder → Bool
  pub decode : Bytes → M Decoder Fault ℕ
  pub flush : M Decoder Fault (Option A.RecordBatch)
  -- `SchemaStore`, `Fingerprint` and `ReaderBuilder`; a schema is its JSON text
  pub Store : Type 0
  pub Fingerprint : Type 0
  pub new_store : Store
  -- `new_with_type(FingerprintAlgorithm::Id)`
  pub new_id_store : Store
  pub register : String → M Store A.external.ArrowError Fingerprint
  -- `set` at `Fingerprint::Id`
  pub set_id : ℕ → String → M Store A.external.ArrowError (Unit {0})
  pub Builder : Type 0
  -- `with_batch_size` and `with_reader_schema`
  pub builder : ℕ → String → Builder
  pub with_writer_schema_store : Store → Builder → Builder
  pub with_active_fingerprint : Fingerprint → Builder → Builder
  -- `with_decoder_mode(DecoderMode::UnframedDatum)`
  pub unframed_datum : Builder → Builder
  pub build_decoder : Builder → Outcome A.external.ArrowError Decoder
  pub concat_batches : A.Schema → List A.RecordBatch → Outcome A.external.ArrowError A.RecordBatch
  -- `Encoder`
  pub Encoder : Type 0
  -- the schema with the JSON text under `SCHEMA_METADATA_KEY` in its metadata
  pub with_avro_schema : String → A.Schema → A.Schema
  -- `WriterBuilder`: `FingerprintStrategy::Id` and `AvroSoeFormat`, or `AvroBinaryFormat`
  pub build_soe_encoder : A.Schema → ℕ → Outcome Fault Encoder
  pub build_binary_encoder : A.Schema → Outcome Fault Encoder
  pub encode : A.RecordBatch → M Encoder Fault (Unit {0})
  pub flush_rows : Encoder → List Bytes × Encoder
  pub try_new : A.Schema → List A.Array → Outcome A.external.ArrowError A.RecordBatch

pub data AvroFraming : Type 0 where
  unframed : AvroFraming
  confluent : List (ℕ × String) → AvroFraming

module _ (A : Arrow) (L : AvroLibrary A) where
  pub record AvroValueDecoder : Type 0 where
    pub decoder : L.Decoder
    pub framed : Bool
    pub decoded : List A.RecordBatch

  abbrev pub Method : Type 0 → Type 0
  Method B = M AvroValueDecoder (InterchangeError A.external) B

  -- `result?` on an error of arrow
  abbrev pub from_arrow :
      {B : Type 0} → Outcome A.external.ArrowError B → Outcome (InterchangeError A.external) B
  from_arrow (done b) = done b
  from_arrow (failed e) = failed (arrow e)

  -- the loop over the writers' schemas in `new`
  unfoldable pub set_writers : List (ℕ × String) → M L.Store A.external.ArrowError (Unit {0})
  set_writers [] = pure tt
  set_writers ((id, writer) ∷ writers) = do L.set_id id writer; set_writers writers

  -- the builder of `new`; the fingerprint and the mode are set after the store
  unfoldable pub framed_builder :
      AvroFraming → String → L.Builder → Outcome A.external.ArrowError L.Builder
  unfolding set_writers
  framed_builder unframed schema builder =
      let (registered, store) = L.register schema L.new_store in
      elim registered [
        | failed e ↦ failed e
        | done fingerprint ↦ done (
            L.unframed_datum
              (L.with_active_fingerprint fingerprint (L.with_writer_schema_store store builder)))
      ]
  framed_builder (confluent writers) schema builder =
      let (set, store) = set_writers writers L.new_id_store in
      elim set [ failed e ↦ failed e | done u ↦ done (L.with_writer_schema_store store builder) ]

  abbrev pub is_framed : AvroFraming → Bool
  is_framed unframed = false
  is_framed (confluent writers) = true

  -- `AvroValueDecoder::new`
  unfoldable pub new_decoder :
      String → AvroFraming → ℕ → Outcome (InterchangeError A.external) AvroValueDecoder
  unfolding framed_builder
  new_decoder schema framing batch_size =
      elim (framed_builder framing schema (L.builder batch_size schema)) [
        | failed e ↦ failed (arrow e)
        | done builder ↦ elim (L.build_decoder builder) [
          | failed e ↦ failed (arrow e)
          | done decoder ↦
              done (record { decoder = decoder; framed = is_framed framing; decoded = [] })
        ]
      ]

  -- `avro_arrow_schema`
  unfoldable pub avro_arrow_schema : String → Outcome (InterchangeError A.external) A.Schema
  unfolding new_decoder
  avro_arrow_schema schema = elim (new_decoder schema unframed 1) [
    | failed e ↦ failed e
    | done d ↦ done (L.schema d.decoder)
  ]

  abbrev pub carried :
      {B : Type 0}
      → AvroValueDecoder
      → Outcome L.Fault B × L.Decoder
      → Outcome (InterchangeError A.external) B × AvroValueDecoder
  carried s (done b, d) = (done b, record s { decoder = d })
  carried s (failed e, d) = (failed (arrow (L.to_arrow e)), record s { decoder = d })

  -- a method of the decoder inside, with `map_err(ArrowError::from)?`
  abbrev pub with_decoder : {B : Type 0} → M L.Decoder L.Fault B → Method B
  with_decoder m s = carried s (m s.decoder)

  abbrev pub keep : Option A.RecordBatch → Method Bool
  keep none s = (done false, s)
  keep (some batch) s = (done true, record s { decoded = s.decoded ++ batch ∷ [] })

  -- `AvroValueDecoder::set_aside`
  unfoldable pub set_aside : Method Bool
  set_aside = do batch ← with_decoder L.flush; keep batch

  -- the body of the loop of `push` after `set_aside`, over the rounds that follow
  abbrev pub read_on : (ℕ → Method (Option ℕ)) → Bytes → ℕ → Bool → Method (Option ℕ)
  read_on rest value consumed false = pure (some consumed)
  read_on rest value consumed true =
      with_decoder (L.decode (drop consumed value)) >>= λ more. rest (consumed + more)

  -- the loop of `push`, on fuel; `none` is fuel that ran out
  unfoldable pub push_rest : ℕ → Bytes → ℕ → Method (Option ℕ)
  push_rest zero value consumed s = (done none, s)
  push_rest (suc fuel) value consumed s = elim (s.framed && ltb consumed (length value)) [
    | false ↦ (done (some consumed), s)
    | true ↦ (set_aside >>= read_on (push_rest fuel value) value consumed) s
  ]

  -- what follows the loop
  abbrev pub consumed_all : Bytes → Option ℕ → Method (Option (Unit {0}))
  consumed_all value none = pure none
  consumed_all value (some consumed) =
      if consumed == length value
      then pure (some tt)
      else raise (arrow (L.bytes_after_datum (length value - consumed)))

  -- the first statement of `push`
  unfoldable pub make_room : Method Bool
  make_room s = if L.batch_is_full s.decoder then set_aside s else (done false, s)

  -- `AvroValueDecoder::push`; `none` is fuel that ran out
  unfoldable pub push : ℕ → Bytes → Method (Option (Unit {0}))
  push fuel value = do
    room ← make_room
    consumed ← with_decoder (L.decode value)
    total ← push_rest fuel value consumed
    consumed_all value total

  -- `flush`, after `set_aside`
  abbrev pub take_decoded : List A.RecordBatch → Method (Option A.RecordBatch)
  take_decoded [] s = (done none, s)
  take_decoded (batch ∷ batches) s =
      elim (L.concat_batches (L.schema s.decoder) (batch ∷ batches)) [
        | done b ↦ (done (some b), record s { decoded = [] })
        | failed e ↦ (failed (arrow e), record s { decoded = [] })
      ]

  -- `AvroValueDecoder::flush`
  unfoldable pub flush : Method (Option A.RecordBatch)
  flush = do found ← set_aside; (λ s. take_decoded s.decoded s)

  pub record AvroValueEncoder : Type 0 where
    pub encoder : L.Encoder
    pub schema : A.Schema

  -- `WriterBuilder`, for the Confluent format with an id or for bare datums
  abbrev pub build_encoder : A.Schema → Option ℕ → Outcome L.Fault L.Encoder
  build_encoder schema (some id) = L.build_soe_encoder schema id
  build_encoder schema none = L.build_binary_encoder schema

  -- `AvroValueEncoder::new`
  unfoldable pub new_encoder :
      String → Option ℕ → Outcome (InterchangeError A.external) AvroValueEncoder
  unfolding avro_arrow_schema
  new_encoder schema schema_id = elim (avro_arrow_schema schema) [
    | failed e ↦ failed e
    | done plain ↦
        let arrow_schema = L.with_avro_schema schema plain in
        elim (build_encoder arrow_schema schema_id) [
          | failed e ↦ failed (arrow (L.to_arrow e))
          | done encoder ↦ done (record { encoder = encoder; schema = arrow_schema })
        ]
  ]

  -- `AvroValueEncoder::encode`
  unfoldable pub encode_values :
      A.RecordBatch → M AvroValueEncoder (InterchangeError A.external) (List Bytes)
  encode_values batch s = elim (L.try_new s.schema (A.columns batch)) [
    | failed e ↦ (failed (arrow e), s)
    | done rebuilt ↦
        let (encoded, encoder) = L.encode rebuilt s.encoder in
        elim encoded [
          | failed e ↦ (failed (arrow (L.to_arrow e)), record s { encoder = encoder })
          | done u ↦
              (done (L.flush_rows encoder).0, record s { encoder = (L.flush_rows encoder).1 })
        ]
  ]
