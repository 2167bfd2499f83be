-- ===== src/Reader.antt =====
-- rust/src/codec.rs: byte readers, and the readers of Parquet files that share one of them.
pub mod Isolation
use fsspec_data.Prelude.{ℕ, ◌+◌, Option, none, some, List, [], ◌∷◌, ◌++◌, length, get_elem?, set}
use fsspec_data.Errors.{Externals, Result, ok, err, io}
use fsspec_data.Stateful.{M, pure, ◌>>=◌}
use fsspec_data.Arrow.{Outcome, done, failed}

abbrev pub Bytes : Type 0
Bytes = List ℕ

-- `negsuc n` is -(n + 1).
pub data ℤ : Type 0 where
  pos negsuc : ℕ → ℤ

-- `std::io::SeekFrom`
pub data SeekFrom : Type 0 where
  start : ℕ → SeekFrom
  current end : ℤ → SeekFrom

-- A `dyn CodecReader`: its state, with the methods of `Read` and `Seek`. Each returns the state that it
-- leaves. A buffer to fill is its length, and what is read are the bytes put into it.
pub record ByteReader (X : Externals) : Type 1 where
  pub State : Type 0
  pub read : ℕ → M State X.IoError Bytes
  pub seek : SeekFrom → M State X.IoError ℕ
  pub read_exact : ℕ → M State X.IoError Bytes
  pub read_to_end : M State X.IoError Bytes
  -- `Cursor::new`
  pub cursor : Bytes → State

module _ {X : Externals} (R : ByteReader X) where
  -- `SharedReader::read`, on a lock that no panic has poisoned. The reader itself is its position; the
  -- state is that of the reader behind the lock.
  unfoldable pub shared_read : ℕ → ℕ → M R.State X.IoError (Bytes × ℕ)
  shared_read position size = do
    at ← R.seek (start position)
    bytes ← R.read size
    pure (bytes, position + length bytes)

  -- `SeekableChunkReader`, with the reader behind its lock
  pub record SeekableChunkReader : Type 0 where
    pub reader : R.State
    pub len : ℕ

  measure : M R.State X.IoError ℕ
  measure = do len ← R.seek (end (pos 0)); at ← R.seek (start 0); pure len

  -- `SeekableChunkReader::new`
  unfoldable pub new_chunk_reader : R.State → Result X SeekableChunkReader
  unfolding measure
  new_chunk_reader reader = elim (measure reader).0 [
    | failed e ↦ err (io e)
    | done len ↦ ok (record { reader = (measure reader).1; len = len })
  ]

  -- `SeekableChunkReader::get_read`: the position of a new `SharedReader`
  unfoldable pub get_read : ℕ → ℕ
  get_read offset = offset

  -- `SeekableChunkReader::get_bytes`
  unfoldable pub get_bytes : ℕ → ℕ → M R.State X.IoError Bytes
  get_bytes offset size = do at ← R.seek (start offset); R.read_exact size

  -- What a Parquet reader does with its chunk reader: a read through one of the `SharedReader`s that it
  -- holds, a new one, or bytes at an offset.
  pub data Access : Type 0 where
    read_shared : ℕ → ℕ → Access
    open_shared : ℕ → Access
    bytes_at : ℕ → ℕ → Access

  -- The positions of the `SharedReader`s, and the reader that they share.
  pub record Shared : Type 0 where
    pub positions : List ℕ
    pub reader : R.State

  -- One access, with the bytes that it returns.
  unfoldable pub access : Access → Shared → Outcome X.IoError Bytes × Shared
  unfolding get_read
  access (read_shared i size) s = elim (get_elem? s.positions i) [
    | none ↦ (done [], s)
    | some position ↦
        let (r, reader') = shared_read position size s.reader in
        elim r [
          | failed e ↦ (failed e, record s { reader = reader' })
          | done (bytes, position') ↦
              (done bytes, record { positions = set s.positions i position'; reader = reader' })
        ]
  ]
  access (open_shared offset) s =
      (done [], record s { positions = s.positions ++ get_read offset ∷ [] })
  access (bytes_at offset size) s =
      let (r, reader') = get_bytes offset size s.reader in (r, record s { reader = reader' })
