-- ===== src/Reader/Isolation.antt =====
-- The readers of one file do not disturb one another.
use fsspec_data.Prelude.{
  get_elem?-append, length-append, Option-cases, lt-get_elem?, ℕ, ◌+◌, ◌≤◌, ◌≡◌, ◌≢◌, refl, sym, ap,
  ◌∙◌, ◌==◌, Bool-cases, inl, inr, some, List, [], ◌∷◌, ◌++◌, length, get_elem?, set, take, drop,
  arith, get_elem?-set, get_elem?-set_other, lt-get_elem?, if◌then◌else◌,
}
use fsspec_data.Errors.{Externals}
use fsspec_data.Arrow.{Outcome, done, failed}
use fsspec_data.Stream.Rows.{drop-drop, take-drop, take-append}
use fsspec_data.Reader.{
  Bytes, ByteReader, start, end, pos, shared_read, get_bytes, Access, read_shared, open_shared,
  bytes_at, Shared, access,
}

module _ {X : Externals} (R : ByteReader X) where
  -- The reader reads `file`: it seeks to any offset, and reads on from where it is, possibly less than
  -- was asked for.
  pub record Serves (file : Bytes) : Type 0 where
    pub at : R.State → ℕ
    pub seek_start :
        (n : ℕ) (s : R.State) → (s' : R.State) × (R.seek (start n) s ≡ (done n, s')) × (at s' ≡ n)
    pub seek_end :
        (s : R.State) → (s' : R.State) × (R.seek (end (pos 0)) s ≡ (done (length file), s'))
    pub reads :
        (n : ℕ) (s : R.State)
        → (bytes : Bytes) × (s' : R.State) × (R.read n s ≡ (done bytes, s'))
          × (length bytes ≤ n)
          × (bytes ≡ take (length bytes) (drop (at s) file))
    pub reads_exact :
        (n : ℕ) (s : R.State)
        → at s + n ≤ length file
        → (s' : R.State) × (R.read_exact n s ≡ (done (take n (drop (at s) file)), s'))

  module _ (file : Bytes) (serves : Serves file) where
    -- A read of a shared reader returns bytes of the file from its position on.
    shared_read_lem :
        (position size : ℕ) (s : R.State)
        → (bytes : Bytes) × (s' : R.State) × (shared_read R position size s
            ≡ (done (bytes, position + length bytes), s'))
          × (length bytes ≤ size)
          × (bytes ≡ take (length bytes) (drop position file))
    unfolding shared_read
    shared_read_lem position size s =
        let (s1, sought, at1) = serves.seek_start position s in
        let (bytes, s2, read, fits, are) = serves.reads size s1 in
        (bytes, s2, rw (sought, read) refl, fits, rw at1 at are)

    -- `get_bytes` returns the bytes of the file at the offset, if it has so many.
    pub get_bytes_lem :
        (offset size : ℕ) (s : R.State)
        → offset + size ≤ length file
        → (s' : R.State) × (get_bytes R offset size s ≡ (done (take size (drop offset file)), s'))
    unfolding get_bytes
    get_bytes_lem offset size s h =
        let (s1, sought, at1) = serves.seek_start offset s in
        let (s2, read) = serves.reads_exact size s1 (omega (arith, at1)) in
        (s2, rw (sought, read, at1) refl)

    abbrev pub got : Outcome X.IoError Bytes → Bytes
    got (done bytes) = bytes
    got (failed e) = []

    -- The bytes that the reader `i` returned over some accesses.
    abbrev pub received : ℕ → List (Access R) → Shared R → Bytes
    received i [] s = []
    received i (read_shared j size ∷ rest) s =
        let later = received i rest (access R (read_shared j size) s).1 in
        if j == i then got (access R (read_shared j size) s).0 ++ later else later
    received i (open_shared offset ∷ rest) s = received i rest (access R (open_shared offset) s).1
    received i (bytes_at offset n ∷ rest) s = received i rest (access R (bytes_at offset n) s).1

    take_two :
        (first second rest : Bytes)
        → first ≡ take (length first) rest
        → second ≡ take (length second) (drop (length first) rest)
        → first ++ second ≡ take (length (first ++ second)) rest
    take_two first second rest p q =
        let whole : rest ≡ first ++ drop (length first) rest =
          sym (take-drop (length first) rest) ∙ ap (λ xs. xs ++ drop (length first) rest) (sym p) in
        ap (λ xs. first ++ xs) q
        ∙ sym (take-append (length second) first (drop (length first) rest))
        ∙ ap (λ k. take k (first ++ drop (length first) rest)) (sym (length-append first second))
        ∙ ap (take (length (first ++ second))) (sym whole)

    access_other :
        (i j size : ℕ) (s : Shared R)
        → j ≢ i
        → get_elem? (access R (read_shared j size) s).1.positions i ≡ get_elem? s.positions i
    unfolding access
    access_other i j size s apart = elim (Option-cases (get_elem? s.positions j)) [
      | inl e ↦ rw (access, e) refl
      | inr (p, e) ↦
          let (bytes, s', read, fits, are) = shared_read_lem p size s.reader in
          rw (access, e, read) (get_elem?-set_other s.positions j i (p + length bytes) apart)
    ]

    access_self :
        (i size p : ℕ) (s : Shared R)
        → get_elem? s.positions i ≡ some p
        → (bytes : Bytes) × (s' : Shared R) × (access R (read_shared i size) s ≡ (done bytes, s'))
          × (bytes ≡ take (length bytes) (drop p file))
          × (get_elem? s'.positions i ≡ some (p + length bytes))
    unfolding access
    access_self i size p s e =
        let (bytes, r, read, fits, are) = shared_read_lem p size s.reader in
        (
          bytes,
          record { positions = set s.positions i (p + length bytes); reader = r },
          rw (access, e, ap (λ x. x.0) read, ap (λ x. x.1) read) refl,
          are,
          get_elem?-set s.positions i (p + length bytes) (lt-get_elem? s.positions i e),
        )

    -- Over a file that is read as it is, and whatever the other readers, new readers and reads at offsets
    -- do in between, what a shared reader returns over a sequence of accesses are the bytes of the file
    -- from its position on, in order and without a gap.
    pub received_lem :
        (i : ℕ) (accesses : List (Access R)) (s : Shared R) (p : ℕ)
        → get_elem? s.positions i ≡ some p
        → received i accesses s ≡ take (length (received i accesses s)) (drop p file)
    unfolding access
    received_lem i [] s p h = refl
    received_lem i (open_shared offset ∷ rest) s p h =
        received_lem i rest (access R (open_shared offset) s).1 p
          (get_elem?-append s.positions _ i h)
    received_lem i (bytes_at offset n ∷ rest) s p h =
        received_lem i rest (access R (bytes_at offset n) s).1 p h
    received_lem i (read_shared j size ∷ rest) s p h = elim (Bool-cases (j == i)) [
      | inl e ↦
          let same : j ≡ i = ground arith in
          let (bytes, s', step, are, now) =
            access_self j size p s (ap (get_elem? s.positions) same ∙ h) in
          rw (e, step)
            (take_two bytes (received i rest s') (drop p file) are (
              received_lem i rest s' (p + length bytes)
                (ap (get_elem? s'.positions) (sym same) ∙ now)
              ∙ ap (take (length (received i rest s'))) (sym (drop-drop (length bytes) p file))))
      | inr e ↦ rw e (
          received_lem i rest (access R (read_shared j size) s).1 p
            (access_other i j size s (λ q. ground arith) ∙ h))
    ]
