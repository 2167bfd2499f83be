-- ===== src/Examples/Decodings.antt =====
-- The codecs over the small format, and their theorems at it.
use fsspec_data.Prelude.{◌≡◌, refl, none, some, List, [], ◌∷◌, arith, true}
use fsspec_data.Errors.{ok, err, arrow}
use fsspec_data.Arrow.{done}
use fsspec_data.Registry.{csv_codec, arrow_ipc_codec}
use fsspec_data.Codec.{
  csv_encode_stream, csv_start_writer, write_all, csv_write_batch, validate_batch, csv_finish,
}
use fsspec_data.Codecs.{decode, encode, encode_stream}
use fsspec_data.Codecs.Whole.{Decodes, decode-Decodes}
use fsspec_data.Codecs.Failing.{at_start, decode-Faulty}
use fsspec_data.Codecs.RoundTrip.{decode-encode}
use fsspec_data.Examples.Tables.{
  Table, tables, tables-RowLaws, tables-ArrowLaws, cursors, encoders, formats, csv-ReadsBack,
}

abbrev pub two_tables : List Table
two_tables = (4, 10 ∷ 11 ∷ []) ∷ (4, 12 ∷ []) ∷ []

pub encoded : encode tables encoders csv_codec 4 two_tables ≡ ok (10 ∷ 11 ∷ 12 ∷ [])
unfolding encode encode_stream csv_encode_stream csv_start_writer write_all csv_write_batch
    validate_batch csv_finish
encoded = refl

decode-Decodes_example :
    Decodes tables cursors formats tables-RowLaws 4
      (10 ∷ 11 ∷ [])
      (decode tables cursors formats 3 (true ∷ []) arrow_ipc_codec (4 ∷ 10 ∷ 11 ∷ []) none)
decode-Decodes_example =
    decode-Decodes tables cursors formats tables-RowLaws arrow_ipc_codec (4 ∷ 10 ∷ 11 ∷ []) none 4
      (done (4, 10 ∷ 11 ∷ []) ∷ []) (true ∷ []) 3 refl (tt, tt) (omega arith)

decode-Faulty_example :
    decode tables cursors formats 0 (true ∷ []) arrow_ipc_codec [] none ≡ some (err (arrow 7))
decode-Faulty_example =
    decode-Faulty tables cursors formats tables-RowLaws arrow_ipc_codec [] none (true ∷ []) 0
      (arrow 7) (at_start refl)

decode-encode_example :
    Decodes tables cursors formats tables-RowLaws 4
      (10 ∷ 11 ∷ 12 ∷ [])
      (decode tables cursors formats 4 [] csv_codec (10 ∷ 11 ∷ 12 ∷ []) (some 4))
decode-encode_example =
    decode-encode tables encoders cursors formats tables-RowLaws tables-ArrowLaws csv_codec 4
      (csv-ReadsBack 4) two_tables (10 ∷ 11 ∷ 12 ∷ []) [] 4 (refl, (refl, tt))
      (omega arith, (omega arith, (omega arith, tt))) encoded (omega arith)
