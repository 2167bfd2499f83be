-- ===== src/Python/Calls.antt =====
-- The reader over a Python object, and the bytes that Python encodes and decodes.
use fsspec_data.Prelude.{
  ℕ, ◌≡◌, ◌≤◌, ◌<◌, ◌↔◌, refl, ap, ◌∙◌, Bool-cases, inl, inr, false, some, List, length, All, ltb,
  arith, if◌then◌else◌,
}
use fsspec_data.Errors.{Externals, ok}
use fsspec_data.Arrow.{Arrow, done, failed}
use fsspec_data.Arrow.Laws.{ArrowLaws}
use fsspec_data.Format
use fsspec_data.Format.{DataFormat, parquet, csv, json_lines, avro}
use fsspec_data.Registry.{
  BuiltIn, lookup, default_registry, arrow_ipc_codec, parquet_codec, csv_codec, json_lines_codec,
  avro_codec,
}
use fsspec_data.Stream.{Tokens, default_options}
use fsspec_data.Stream.Rows.{RowLaws}
use fsspec_data.Stream.Collecting.{FitsOptions, batch_rows}
use fsspec_data.Reader.{Bytes, ByteReader}
use fsspec_data.Decoding.{Formats}
use fsspec_data.Stateful.{Outcome-cases, done-injective}
use fsspec_data.Codecs.{Encoders, encode}
use fsspec_data.Codecs.RoundTrip.{ReadsBack, decode-encode}
use fsspec_data.Python.Planned.{to_python-returned}
use fsspec_data.Python.Objects.{PySource, copied, python_read}
use fsspec_data.Python.{returned, to_python, encode_batches, decode_batches}

module _ {X : Externals} (S : PySource X) where
  copied-done :
      (size : ℕ) (object : S.Object) (bytes : Bytes)
      → copied S size object ≡ done bytes
      → (S.as_bytes object ≡ done bytes) × (length bytes ≤ size)
  copied-done size object bytes h = elim (Outcome-cases (S.as_bytes object)) [
    | inr (e, q) ↦ cc (rw (copied, q) at h)
    | inl (b, q) ↦
        let cut : (if ltb size (length b) then failed S.too_many_bytes else done b) ≡ done bytes =
          rw (copied, q) at h in
        elim (Bool-cases (ltb size (length b))) [
          | inl t ↦ cc (rw t at cut)
          | inr t ↦
              let same : b ≡ bytes = done-injective b bytes (rw t at cut) in
              (q ∙ ap done same, ground (arith, ap length same))
        ]
  ]

  done-copied :
      (size : ℕ) (object : S.Object) (bytes : Bytes)
      → S.as_bytes object ≡ done bytes
      → length bytes ≤ size
      → copied S size object ≡ done bytes
  done-copied size object bytes e h =
      let fits : ltb size (length bytes) ≡ false = ground arith in rw (copied, e, fits) refl

  -- `read` of a Python reader returns some bytes exactly where the call of the object's `read` returns
  -- just those bytes and they fit into the buffer.
  pub python_read_iff :
      (size : ℕ) (s s' : S.State) (bytes : Bytes)
      → (python_read S size s ≡ (done bytes, s')) ↔ (
          (object : S.Object) × (S.call_read size s ≡ (done object, s'))
          × (S.as_bytes object ≡ done bytes)
          × (length bytes ≤ size))
  unfolding python_read
  python_read_iff size s s' bytes = (
    λ h. elim (Outcome-cases (S.call_read size s).0) [
      | inl (object, e) ↦
          let read : (copied S size object, (S.call_read size s).1) ≡ (done bytes, s') =
            rw (python_read, e) at h in
          let (are, fits) = copied-done size object bytes (ap (λ r. r.0) read) in
          (
            object,
            ap (λ o. (o, (S.call_read size s).1)) e ∙ ap (λ r. (done object, r.1)) read,
            are,
            fits,
          )
      | inr (x, e) ↦ cc (ap (λ r. r.0) (rw (python_read, e) at h))
    ],
    λ (object, called, are, fits).
        rw (python_read, ap (λ r. r.0) called, ap (λ r. r.1) called)
          (ap (λ o. (o, s')) (done-copied size object bytes are fits)),
  )

-- The codec that the default registry has for a format.
abbrev pub codec_of : DataFormat → BuiltIn
codec_of DataFormat.arrow = arrow_ipc_codec
codec_of parquet = parquet_codec
codec_of csv = csv_codec
codec_of json_lines = json_lines_codec
codec_of avro = avro_codec

lookup-codec_of :
    {X : Externals} (format : DataFormat)
    → lookup {X = X} format default_registry ≡ ok (codec_of format)
unfolding lookup default_registry
lookup-codec_of DataFormat.arrow = refl
lookup-codec_of parquet = refl
lookup-codec_of csv = refl
lookup-codec_of json_lines = refl
lookup-codec_of avro = refl

module _ (A : Arrow) (E : Encoders A) (R : ByteReader A.external) (F : Formats A R)
    (rows : RowLaws A) where
  -- The bytes that `encode_batches` returns for batches of its schema, whose rows the format can represent,
  -- are decoded by `decode_batches`, by the same format name and schema, as the schema that the format
  -- keeps and the same rows, in batches of the default size, where the operations of the format's writer
  -- keep such rows and its reader reads what is put out, and with more fuel than there are rows.
  pub decode_batches-encode_batches :
      ArrowLaws A
      → (format : DataFormat) (schema : A.Schema)
        (back : ReadsBack A E R F rows (codec_of format) schema) (bs : List A.RecordBatch)
        (data' : Bytes) (tokens : Tokens) (fuel : ℕ)
      → All (λ b. A.schema b ≡ schema) bs
      → All back.Represents (batch_rows A rows bs)
      → encode_batches A E (Format.as_str format) schema bs ≡ returned data'
      → length (batch_rows A rows bs) < fuel
      → (batches : List A.RecordBatch) × (decode_batches A R F fuel tokens
            (Format.as_str format)
            data'
            (some schema)
          ≡ some (returned (back.kept, batches)))
        × All (FitsOptions A rows default_options) batches
        × (batch_rows A rows batches ≡ batch_rows A rows bs)
  unfolding encode_batches decode_batches to_python
  decode_batches-encode_batches laws format schema back bs data' tokens fuel h represented encoded
        enough =
      let found = lookup-codec_of {X = A.external} format in
      let parsed = Format.parse-as_str {X = A.external} format in
      let bytes : encode A E (codec_of format) schema bs ≡ ok data' =
        to_python-returned A _ (rw (encode_batches, parsed, found) at encoded) in
      let d =
        decode-encode A E R F rows laws (codec_of format) schema back bs data' tokens fuel h
          represented bytes enough in
      (
        d.decoded.batches,
        rw (decode_batches, parsed, found, d.returned)
            (ap (λ z. some (returned (z, d.decoded.batches))) d.of_schema),
        d.sized,
        d.all_rows,
      )
