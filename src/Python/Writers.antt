-- ===== src/Python/Writers.antt =====
-- Codec writers of Python, from their start to their finish and after it.
use mathlib.Core.Option
use fsspec_data.Prelude.{
  String, ◌≡◌, refl, sym, ap, ◌∙◌, ◌⊎◌, inl, inr, Option, none, some, List, [], ◌∷◌, map,
}
use fsspec_data.Errors.{Externals, InterchangeError, Result, ok, err, panic, ◌>>=◌}
use fsspec_data.Arrow.{Arrow}
use fsspec_data.Format
use fsspec_data.Registry.{
  BuiltIn, lookup, default_registry, arrow_ipc_codec, parquet_codec, csv_codec, json_lines_codec,
  avro_codec,
}
use fsspec_data.Registry.Lookup.{lookup-default_registry}
use fsspec_data.Codec.{
  Encoder, Writer, ipc_start_writer, parquet_start_writer, csv_start_writer,
  json_lines_start_writer, avro_start_writer, ipc_start_owned_writer, parquet_start_owned_writer,
  csv_start_owned_writer, json_lines_start_owned_writer, avro_start_owned_writer, write_all,
  ipc_encode_stream, parquet_encode_stream, csv_encode_stream, json_lines_encode_stream,
  avro_encode_stream,
}
use fsspec_data.Reader.{Bytes}
use fsspec_data.Codecs.{
  Encoders, encoder, write_batch, finish_writer, start_owned_writer, encode_stream,
}
use fsspec_data.Python.Objects.{ByteWriter, PySink, python_writer}
use fsspec_data.Python.{
  codec_writer_is_finished, PyResult, returned, raised, panicked, to_python, NativeCodecWriter,
  native_write_batch, native_finish, start_codec_writer,
}

abbrev pub map_returned : {X : Externals} {B C : Type 0} → (B → C) → PyResult X B → PyResult X C
map_returned f (returned b) = returned (f b)
map_returned f (raised e) = raised e
map_returned f panicked = panicked

pub Result-cases :
    {X : Externals} {B : Type 0} (r : Result X B)
    → ((b : B) × (r ≡ ok b)) ⊎ (((e : InterchangeError X) × (r ≡ err e)) ⊎ (r ≡ panic))
Result-cases (ok b) = inl (b, refl)
Result-cases (err e) = inr (inl (e, refl))
Result-cases panic = inr (inr refl)

module _ {X : Externals} where
  >>=-assoc :
      {B C D : Type 0} (r : Result X D) (f : D → Result X B) (g : B → Result X C)
      → (r >>= f >>= g) ≡ (r >>= λ d. f d >>= g)
  >>=-assoc (ok d) f g = refl
  >>=-assoc (err e) f g = refl
  >>=-assoc panic f g = refl

module _ (A : Arrow) (E : Encoders A) where
  -- Every codec starts its writer, writes its batches in order and finishes.
  encode_stream-writer :
      (codec : BuiltIn) (schema : A.Schema) (items : List (Result A.external A.RecordBatch))
      → encode_stream A E codec schema items ≡ (
          start_owned_writer A E codec schema >>= λ w.
          write_all A (encoder A E codec) (write_batch A E codec) w items >>= λ w'.
          finish_writer A E codec w')
  unfolding encode_stream start_owned_writer write_batch finish_writer ipc_encode_stream
      parquet_encode_stream csv_encode_stream json_lines_encode_stream avro_encode_stream
      ipc_start_writer parquet_start_writer csv_start_writer json_lines_start_writer
      avro_start_writer ipc_start_owned_writer parquet_start_owned_writer csv_start_owned_writer
      json_lines_start_owned_writer avro_start_owned_writer
  encode_stream-writer arrow_ipc_codec schema items = refl
  encode_stream-writer parquet_codec schema items = refl
  encode_stream-writer csv_codec schema items = refl
  encode_stream-writer json_lines_codec schema items = refl
  encode_stream-writer avro_codec schema items = refl

  module _ (codec : BuiltIn) where
    abbrev put_out : Encoder.State (encoder A E codec) → Bytes
    put_out = Encoder.output (encoder A E codec)

    abbrev after :
        PyResult A.external (Unit {0})
        → PyResult A.external (Option Bytes)
        → PyResult A.external (Option Bytes)
    after (returned u) rest = rest
    after (raised e) rest = raised e
    after panicked rest = panicked

    -- What Python does with a writer: writes in order, up to the first that raises, then the finish.
    abbrev pub written_and_finished :
        List A.RecordBatch → NativeCodecWriter A E codec → PyResult A.external (Option Bytes)
    written_and_finished [] s = map_returned (Option.map put_out) (native_finish A E codec s).0
    written_and_finished (b ∷ bs) s =
        after (native_write_batch A E codec b s).0
          (written_and_finished bs (native_write_batch A E codec b s).1)

    written_and_finished_lem :
        (bs : List A.RecordBatch) (w : Writer A (encoder A E codec))
        → written_and_finished bs (record { writer = some w })
          ≡ to_python (
              write_all A (encoder A E codec) (write_batch A E codec) w (map ok bs) >>= λ w'.
              finish_writer A E codec w' >>= λ out. ok (some (put_out out)))
    unfolding native_finish native_write_batch to_python write_all
    written_and_finished_lem [] w = elim (Result-cases (finish_writer A E codec w)) [
      | inl (out, e) ↦ rw (native_finish, to_python, e) refl
      | inr (inl (x, e)) ↦ rw (native_finish, to_python, e) refl
      | inr (inr e) ↦ rw (native_finish, to_python, e) refl
    ]
    written_and_finished_lem (b ∷ bs) w = elim (Result-cases (write_batch A E codec w b)) [
      | inl (w', e) ↦ rw (native_write_batch, write_all, e) (written_and_finished_lem bs w')
      | inr (inl (x, e)) ↦ rw (native_write_batch, write_all, to_python, e) refl
      | inr (inr e) ↦ rw (native_write_batch, write_all, to_python, e) refl
    ]

    -- Calls of a writer by Python.
    pub data Call : Type 0 where
      write : A.RecordBatch → Call
      close : Call

    -- What a call returns or raises, and the state after it.
    abbrev pub called :
        Call
        → NativeCodecWriter A E codec
        → PyResult A.external (Unit {0}) × NativeCodecWriter A E codec
    called (write b) s = native_write_batch A E codec b s
    called close s =
        (map_returned (λ out. tt) (native_finish A E codec s).0, (native_finish A E codec s).1)

    abbrev pub outcomes :
        List Call → NativeCodecWriter A E codec → List (PyResult A.external (Unit {0}))
    outcomes [] s = []
    outcomes (c ∷ cs) s = (called c s).0 ∷ outcomes cs (called c s).1

    -- What a finished writer answers.
    abbrev pub refused : Call → PyResult A.external (Unit {0})
    refused (write b) = raised codec_writer_is_finished
    refused close = returned tt

    outcomes_finished : (cs : List Call) → outcomes cs (record { writer = none }) ≡ map refused cs
    unfolding native_write_batch native_finish
    outcomes_finished [] = refl
    outcomes_finished (write b ∷ cs) =
        ap (λ rs. raised codec_writer_is_finished ∷ rs) (outcomes_finished cs)
    outcomes_finished (close ∷ cs) = ap (λ rs. returned tt ∷ rs) (outcomes_finished cs)

    finished_lem :
        (o : Option (Writer A (encoder A E codec)))
        → (native_finish A E codec (record { writer = o })).1 ≡ record { writer = none }
    unfolding native_finish
    finished_lem none = refl
    finished_lem (some w) = elim (Result-cases (finish_writer A E codec w)) [
      | inl (out, e) ↦ rw (native_finish, e) refl
      | inr (inl (x, e)) ↦ rw (native_finish, e) refl
      | inr (inr e) ↦ rw (native_finish, e) refl
    ]

    -- After a finish of a codec writer, whether it returned or raised, every write raises that the writer
    -- is finished, and every finish returns.
    pub outcomes-native_finish :
        (s : NativeCodecWriter A E codec) (cs : List Call)
        → outcomes cs (native_finish A E codec s).1 ≡ map refused cs
    outcomes-native_finish s cs = ap (outcomes cs) (finished_lem s.writer) ∙ outcomes_finished cs

  abbrev pub continued :
      List A.RecordBatch
      → PyResult A.external ((codec : BuiltIn) × NativeCodecWriter A E codec)
      → PyResult A.external (Option Bytes)
  continued bs (returned (codec, s)) = written_and_finished codec bs s
  continued bs (raised e) = raised e
  continued bs panicked = panicked

  -- The encoding of the batches to what the writers own, and the bytes put out.
  abbrev pub streamed : String → A.Schema → List A.RecordBatch → PyResult A.external (Option Bytes)
  streamed format schema bs = to_python (do
    parsed ← Format.parse format
    codec ← lookup parsed default_registry
    out ← encode_stream A E codec schema (map ok bs)
    ok (some (put_out codec out)))

  session_of :
      (codec : BuiltIn) (schema : A.Schema) (bs : List A.RecordBatch)
      → continued bs (
          to_python
            (start_owned_writer A E codec schema >>= λ w. ok (codec, record { writer = some w })))
        ≡ to_python
            (encode_stream A E codec schema (map ok bs) >>= λ out. ok (some (put_out codec out)))
  unfolding to_python
  session_of codec schema bs = elim (Result-cases (start_owned_writer A E codec schema)) [
    | inl (w, e) ↦
        rw (encode_stream-writer codec schema (map ok bs), e)
          (written_and_finished_lem codec bs w
            ∙ ap to_python (
                sym (>>=-assoc _ (finish_writer A E codec) (λ out. ok (some (put_out codec out))))))
    | inr (inl (x, e)) ↦ rw (encode_stream-writer codec schema (map ok bs), to_python, e) refl
    | inr (inr e) ↦ rw (encode_stream-writer codec schema (map ok bs), to_python, e) refl
  ]

module _ (A : Arrow) (over : (W : ByteWriter A.external) → W.State → Encoders A)
    (W : PySink A.external) where
  -- A writer of the format that Python starts over a sink, gives the batches and finishes.
  abbrev pub session :
      String → A.Schema → List A.RecordBatch → W.State → PyResult A.external (Option Bytes)
  session format schema bs sink =
      continued A (over (python_writer W) sink) bs (start_codec_writer A over W format schema sink)

  pub session-encode_stream :
      (format : String) (schema : A.Schema) (bs : List A.RecordBatch) (sink : W.State)
      → session format schema bs sink ≡ streamed A (over (python_writer W) sink) format schema bs
  unfolding start_codec_writer to_python
  session-encode_stream format schema bs sink =
      elim (Result-cases {X = A.external} (Format.parse format)) [
        | inl (f, e) ↦
            let (codec, found, _) = lookup-default_registry {X = A.external} f in
            rw (start_codec_writer, e, found)
              (session_of A (over (python_writer W) sink) codec schema bs)
        | inr (inl (x, e)) ↦ rw (start_codec_writer, e) refl
        | inr (inr e) ↦ rw (start_codec_writer, e) refl
      ]
