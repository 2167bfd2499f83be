-- ===== src/Examples/Readers.antt =====
-- A reader of one file, whose state is its position, and readers that share it.
use fsspec_data.Prelude.{
  ℕ, zero, suc, ◌+◌, ◌-◌, ◌≤◌, ◌≡◌, refl, ap, false, ltb, List, [], ◌∷◌, length, take, drop, arith,
  if◌then◌else◌,
}
use fsspec_data.Arrow.{Outcome, done, failed}
use fsspec_data.Reader.{
  Bytes, ByteReader, ℤ, pos, negsuc, SeekFrom, start, current, end, Access, read_shared,
  open_shared, bytes_at, Shared, access, shared_read,
}
use fsspec_data.Reader.Isolation.{Serves, received, received_lem}
use fsspec_data.Examples.Toy.{externals}

abbrev target : ℕ → ℤ → ℕ → Outcome ℕ ℕ × ℕ
target from (pos k) at = (done (from + k), from + k)
target from (negsuc k) at =
    if ltb k from then (done (from - suc k), from - suc k) else (failed 9, at)

abbrev file_seek : Bytes → SeekFrom → ℕ → Outcome ℕ ℕ × ℕ
file_seek file (start n) at = (done n, n)
file_seek file (current k) at = target at k at
file_seek file (end k) at = target (length file) k at

abbrev reader_of : Bytes → ByteReader externals
reader_of file = record {
  State = ℕ;
  read = λ n at. let bytes = take n (drop at file) in (done bytes, at + length bytes);
  seek = file_seek file;
  read_exact = λ n at.
      if ltb (length file) (at + n) then (failed 5, at) else (done (take n (drop at file)), at + n);
  read_to_end = λ at. (done (drop at file), length file);
  cursor = λ bytes. 0;
}

length-take_le : (n : ℕ) (xs : Bytes) → length (take n xs) ≤ n
length-take_le zero xs = omega arith
length-take_le (suc n) [] = omega arith
length-take_le (suc n) (x ∷ xs) = omega (arith, length-take_le n xs)

take-length-take : (n : ℕ) (xs : Bytes) → take n xs ≡ take (length (take n xs)) xs
take-length-take zero xs = refl
take-length-take (suc n) [] = refl
take-length-take (suc n) (x ∷ xs) = ap (λ ys. x ∷ ys) (take-length-take n xs)

reader_of-Serves : (file : Bytes) → Serves (reader_of file) file
reader_of-Serves file = record {
  at = λ at. at;
  seek_start = λ n s. (n, refl, refl);
  seek_end = λ s. (length file + 0, ap (λ n. (done n, length file + 0)) (omega arith));
  reads = λ n s. (
    take n (drop s file),
    s + length (take n (drop s file)),
    refl,
    length-take_le n (drop s file),
    take-length-take n (drop s file),
  );
  reads_exact = λ n s h.
      let inside : ltb (length file) (s + n) ≡ false = ground arith in (s + n, rw inside refl);
}

abbrev file : Bytes
file = 1 ∷ 2 ∷ 3 ∷ 4 ∷ 5 ∷ []

abbrev accesses : List (Access (reader_of file))
accesses = read_shared 0 2 ∷ open_shared 3 ∷ read_shared 1 1 ∷ bytes_at 0 3 ∷ read_shared 0 9 ∷ []

abbrev shared : Shared (reader_of file)
shared = record { positions = 1 ∷ []; reader = 4 }

received_lem_example :
    received (reader_of file) file (reader_of-Serves file) 0 accesses shared ≡ 2 ∷ 3 ∷ 4 ∷ 5 ∷ []
unfolding access shared_read
received_lem_example =
    received_lem (reader_of file) file (reader_of-Serves file) 0 accesses shared 1 refl
