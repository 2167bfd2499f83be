-- ===== src/Python/Objects.antt =====
-- rust/python/lib.rs: `PythonReader` and `PythonWriter`, over Python objects.
use fsspec_data.Prelude.{ℕ, length, ltb, if◌then◌else◌}
use fsspec_data.Errors.{Externals}
use fsspec_data.Arrow.{Outcome, done, failed}
use fsspec_data.Stateful.{M}
use fsspec_data.Reader.{Bytes, ℤ, pos, SeekFrom, start, current, end}

-- A Python object that is read from, with its methods; `Exception` is what a call raises.
pub record PySource (X : Externals) : Type 1 where
  pub State : Type 0
  pub Object : Type 0
  pub Exception : Type 0
  -- `read(size)`
  pub call_read : ℕ → M State Exception Object
  -- `seek(offset, whence)`
  pub call_seek : ℤ → ℕ → M State Exception Object
  -- `cast::<PyBytes>`, with the text of its error
  pub Mismatch : Type 0
  pub as_bytes : Object → Outcome Mismatch Bytes
  -- `extract::<u64>`
  pub as_u64 : Object → Outcome Exception ℕ
  -- `python_io_error`, and the two errors of kind `InvalidData`
  pub python_io_error : Exception → X.IoError
  pub invalid_data : Mismatch → X.IoError
  pub too_many_bytes : X.IoError

module _ {X : Externals} (S : PySource X) where
  -- `read` of `PythonReader`, after the call of Python: what is copied into a buffer of that length
  abbrev pub copied : ℕ → S.Object → Outcome X.IoError Bytes
  copied size object = elim (S.as_bytes object) [
    | failed e ↦ failed (S.invalid_data e)
    | done bytes ↦ if ltb size (length bytes) then failed S.too_many_bytes else done bytes
  ]

  -- `PythonReader::read`
  unfoldable pub python_read : ℕ → M S.State X.IoError Bytes
  python_read size s =
      let (r, s') = S.call_read size s in
      elim r [
        | failed e ↦ (failed (S.python_io_error e), s')
        | done object ↦ (copied size object, s')
      ]

  -- the call of `seek`
  abbrev pub call_seek_at : SeekFrom → M S.State S.Exception S.Object
  call_seek_at (start offset) = S.call_seek (pos offset) 0
  call_seek_at (current offset) = S.call_seek offset 1
  call_seek_at (end offset) = S.call_seek offset 2

  abbrev pub extracted : S.Object → Outcome X.IoError ℕ
  extracted object = elim (S.as_u64 object) [
    | failed e ↦ failed (S.python_io_error e)
    | done position ↦ done position
  ]

  -- `PythonReader::seek`
  unfoldable pub python_seek : SeekFrom → M S.State X.IoError ℕ
  python_seek position s =
      let (r, s') = call_seek_at position s in
      elim r [
        | failed e ↦ (failed (S.python_io_error e), s')
        | done object ↦ (extracted object, s')
      ]

-- A Python object that is written to, with its methods.
pub record PySink (X : Externals) : Type 1 where
  pub State : Type 0
  pub Object : Type 0
  pub Exception : Type 0
  -- `write(bytes)` and `flush()`
  pub call_write : Bytes → M State Exception Object
  pub call_flush : M State Exception Object
  -- `extract::<usize>`
  pub as_usize : Object → Outcome Exception ℕ
  pub python_io_error : Exception → X.IoError

module _ {X : Externals} (W : PySink X) where
  abbrev pub counted : W.Object → Outcome X.IoError ℕ
  counted object = elim (W.as_usize object) [
    | failed e ↦ failed (W.python_io_error e)
    | done written ↦ done written
  ]

  -- `PythonWriter::write`
  unfoldable pub python_write : Bytes → M W.State X.IoError ℕ
  python_write buffer s =
      let (r, s') = W.call_write buffer s in
      elim r [ failed e ↦ (failed (W.python_io_error e), s') | done object ↦ (counted object, s') ]

  -- `PythonWriter::flush`
  unfoldable pub python_flush : M W.State X.IoError (Unit {0})
  python_flush s =
      let (r, s') = W.call_flush s in
      elim r [ failed e ↦ (failed (W.python_io_error e), s') | done object ↦ (done tt, s') ]

-- A `Write`, which a writer of the crates owns: it takes of the bytes as many as it answers.
pub record ByteWriter (X : Externals) : Type 1 where
  pub State : Type 0
  pub write : Bytes → M State X.IoError ℕ
  pub flush : M State X.IoError (Unit {0})

-- `PythonWriter`
abbrev pub python_writer : {X : Externals} → PySink X → ByteWriter X
python_writer W = record { State = W.State; write = python_write W; flush = python_flush W }
