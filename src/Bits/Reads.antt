-- ===== src/Bits/Reads.antt =====
-- What an action reads from a reader that stands before given bytes, with no error so far.
use mp4ff.Base.{
  ◌-◌, ◌≤◌, ℕ, ◌+◌, ◌≡◌, refl, ap, ◌∙◌, arith, Bool, true, false, List, [], ◌∷◌, ◌++◌, append-nil,
  append_assoc, none, Bytes, length, take, drop, All, flat, ltb, ltb-false, if◌then◌else◌,
  length-append, take-length_append, drop-length_append,
}
use mp4ff.Base.Int.{
  ℤ, pos, int16, int32, int64, uint16, uint32, uint64, IsInt16, IsInt32, IsInt64, int16-uint16,
  uint16-lt, int32-uint32, int64-uint64, uint32-lt, uint64-lt,
}
use mp4ff.Base.Words.{
  be_bytes, be_value, length-be_bytes, IsUint8, IsUint16, IsUint24, IsUint32, IsUint64,
  be_value-be_bytes1, be_value-be_bytes2, be_value-be_bytes3, be_value-be_bytes4,
  be_value-be_bytes8,
}
use mp4ff.Base.Action.{bind_ok, Error, fail_if, ◌>>◌, ok, Action, ◌>>=◌, pure, when, repeat}
use mp4ff.Bits.Reader.{
  Reader, new_reader, acc_error, finish, read_uint, read_uint8, read_uint16, read_uint24,
  read_uint32, read_uint64, read_int16, read_int32, read_int64, read_fixed_length_string,
  read_bytes, skip_bytes, nr_remaining_bytes,
}

-- A reader that has read `done` and has `rest` before it.
unfoldable pub reader_at : Bytes → Bytes → Reader
reader_at done rest = record {
  err = none;
  slice = done ++ rest;
  pos = length done;
  len = length (done ++ rest);
}

-- Before `bs` and anything else, `m` reads `bs`, gives `a`, and stands behind them.
pub record Reads {ℓ} {A : Type ℓ} (m : Action Reader A) (bs : Bytes) (a : A) : Type ℓ where
  pub run :
      (done rest : Bytes) → m (reader_at done (bs ++ rest)) ≡ ok (a, reader_at (done ++ bs) rest)

module _ {ℓ} {A : Type ℓ} where
  pub Reads-pure : (a : A) → Reads (pure a) [] a
  Reads-pure a = record { run = λ done rest. rw append-nil }

  pub Reads-finish : (a : A) → Reads (finish a) [] a
  unfolding acc_error reader_at ◌>>=◌
  Reads-finish a = record { run = λ done rest. rw append-nil }

  pub Reads-bind {κ} :
      {B : Type κ} {m : Action Reader A} (f : A → Action Reader B) {bs cs : Bytes} {a : A} {b : B}
      → Reads m bs a
      → Reads (f a) cs b
      → Reads (m >>= f) (bs ++ cs) b
  Reads-bind {m} f {bs} {cs} h k = record {
    run = λ done rest.
        rw (append_assoc bs cs rest)
          (bind_ok m f _ (h.run done (cs ++ rest)) ∙ k.run (done ++ bs) rest ∙ rw append_assoc);
  }

  -- The last read, and then only computation.
  pub Reads-end {κ} :
      {B : Type κ} {m : Action Reader A} (f : A → Action Reader B) {bs : Bytes} {a : A} {b : B}
      → Reads m bs a
      → Reads (f a) [] b
      → Reads (m >>= f) bs b
  Reads-end f {bs} h k = rw append-nil at (Reads-bind f h k)

  -- A test that passes reads nothing.
  pub Reads-fail_if :
      (e : Error) (k : Action Reader A) {c : Bool} {bs : Bytes} {a : A}
      → c ≡ false
      → Reads k bs a
      → Reads (fail_if c e >> k) bs a
  unfolding ◌>>=◌
  Reads-fail_if e k h r = record { run = λ done rest. rw h (r.run done rest) }

  -- The number of bytes left is at least that of the bytes to be read.
  pub Reads-remaining :
      (f : ℕ → Action Reader A) {bs : Bytes} {a : A}
      → ((n : ℕ) → length bs ≤ n → Reads (f n) bs a)
      → Reads (nr_remaining_bytes >>= f) bs a
  unfolding nr_remaining_bytes reader_at ◌>>=◌
  Reads-remaining f {bs} h = record {
    run = λ done rest.
        (h (length (done ++ (bs ++ rest)) - length done)
            (omega (arith, length-append done (bs ++ rest), length-append bs rest))).run
          done rest;
  }

-- A last step that only computes.
pub Reads-last {ℓ κ} :
    {A : Type ℓ} {B : Type κ} {m : Action Reader A} (g : A → B) {bs : Bytes} {a : A}
    → Reads m bs a
    → Reads (m >>= λ x. pure (g x)) bs (g a)
Reads-last {m} g {bs} h = record { run = λ done rest. bind_ok m _ _ (h.run done rest) }

take-drop :
    (done bs rest : Bytes) → take (length bs) (drop (length done) (done ++ (bs ++ rest))) ≡ bs
take-drop done bs rest = rw drop-length_append (take-length_append bs rest)

has_room :
    (done bs rest : Bytes) → ltb (length (done ++ (bs ++ rest))) (length done + length bs) ≡ false
has_room done bs rest =
    ltb-false _ _ (omega (arith, length-append done (bs ++ rest), length-append bs rest))

-- The reader that has moved on over `bs`.
moved :
    (done bs rest : Bytes)
    → record (reader_at done (bs ++ rest)) { pos = length done + length bs }
      ≡ reader_at (done ++ bs) rest
unfolding reader_at
moved done bs rest = rw (append_assoc, length-append done bs)

read_uint_lem :
    (bs : Bytes) (v : ℕ) → be_value 0 bs ≡ v → Reads (λ s. ok (read_uint (length bs) s)) bs v
unfolding read_uint reader_at
read_uint_lem bs v h = record {
  run = λ done rest.
      rw (has_room done bs rest)
        (rw (take-drop done bs rest, h) (ap (λ s. ok (v, s)) (moved done bs rest)));
}

module _ (v : ℕ) where
  pub Reads-uint8 : IsUint8 v → Reads read_uint8 (be_bytes 1 v) v
  unfolding read_uint8
  Reads-uint8 h =
      rw (length-be_bytes 1 v) at (read_uint_lem (be_bytes 1 v) v (be_value-be_bytes1 v h))

  pub Reads-uint16 : IsUint16 v → Reads read_uint16 (be_bytes 2 v) v
  unfolding read_uint16
  Reads-uint16 h =
      rw (length-be_bytes 2 v) at (read_uint_lem (be_bytes 2 v) v (be_value-be_bytes2 v h))

  pub Reads-uint24 : IsUint24 v → Reads read_uint24 (be_bytes 3 v) v
  unfolding read_uint24
  Reads-uint24 h =
      rw (length-be_bytes 3 v) at (read_uint_lem (be_bytes 3 v) v (be_value-be_bytes3 v h))

  pub Reads-uint32 : IsUint32 v → Reads read_uint32 (be_bytes 4 v) v
  unfolding read_uint32
  Reads-uint32 h =
      rw (length-be_bytes 4 v) at (read_uint_lem (be_bytes 4 v) v (be_value-be_bytes4 v h))

  pub Reads-uint64 : IsUint64 v → Reads read_uint64 (be_bytes 8 v) v
  unfolding read_uint64
  Reads-uint64 h =
      rw (length-be_bytes 8 v) at (read_uint_lem (be_bytes 8 v) v (be_value-be_bytes8 v h))

pub Reads-int16 : (z : ℤ) → IsInt16 z → Reads read_int16 (be_bytes 2 (uint16 z)) z
unfolding read_int16
Reads-int16 z h =
    rw (int16-uint16 z h) at (Reads-last int16 (Reads-uint16 (uint16 z) (uint16-lt z)))

pub Reads-int32 : (z : ℤ) → IsInt32 z → Reads read_int32 (be_bytes 4 (uint32 z)) z
unfolding read_int32
Reads-int32 z h =
    rw (int32-uint32 z h) at (Reads-last int32 (Reads-uint32 (uint32 z) (uint32-lt z)))

pub Reads-int64 : (z : ℤ) → IsInt64 z → Reads read_int64 (be_bytes 8 (uint64 z)) z
unfolding read_int64
Reads-int64 z h =
    rw (int64-uint64 z h) at (Reads-last int64 (Reads-uint64 (uint64 z) (uint64-lt z)))

module _ (bs : Bytes) where
  pub Reads-fixed_length_string : Reads (read_fixed_length_string (length bs)) bs bs
  unfolding read_fixed_length_string reader_at
  Reads-fixed_length_string = record {
    run = λ done rest.
        rw (has_room done bs rest)
          (rw (take-drop done bs rest) (ap (λ s. ok (bs, s)) (moved done bs rest)));
  }

  pub Reads-bytes : Reads (read_bytes (pos (length bs))) bs bs
  unfolding read_bytes reader_at
  Reads-bytes = record {
    run = λ done rest.
        rw (has_room done bs rest)
          (rw (take-drop done bs rest) (ap (λ s. ok (bs, s)) (moved done bs rest)));
  }

  pub Reads-skip : Reads (skip_bytes (length bs)) bs tt
  unfolding skip_bytes reader_at
  Reads-skip = record {
    run = λ done rest. rw (has_room done bs rest) (ap (λ s. ok (tt, s)) (moved done bs rest));
  }

-- A field that is there only under a flag, and keeps its default otherwise.
pub Reads-flag {ℓ} :
    {A : Type ℓ} (c : Bool) (d : A) {a : A} {m : Action Reader A} {bs : Bytes}
    → Reads m bs a
    → Reads (when c d m) (if c then bs else []) (if c then a else d)
Reads-flag true d h = h
Reads-flag false d h = Reads-pure d

-- Two forms of a field, by a test.
pub Reads-if {ℓ} :
    {A : Type ℓ} (c : Bool) {a : A} {m k : Action Reader A} {bs cs : Bytes}
    → (c ≡ true → Reads m bs a)
    → (c ≡ false → Reads k cs a)
    → Reads (if c then m else k) (if c then bs else cs) a
Reads-if true h h' = h refl
Reads-if false h h' = h' refl

-- Values in a row, each written by `f`.
pub Reads-repeat {ℓ} :
    {A : Type ℓ} (m : Action Reader A) (f : A → Bytes) (xs : List A)
    → All (λ x. Reads m (f x) x) xs
    → Reads (repeat (length xs) m) (flat f xs) xs
unfolding repeat
Reads-repeat m f [] h = Reads-pure []
Reads-repeat m f (x ∷ xs) h = Reads-bind _ h.0 (Reads-last (λ ys. x ∷ ys) (Reads-repeat m f xs h.1))

pub reader_at-new : (bs : Bytes) → new_reader bs ≡ reader_at [] bs
unfolding reader_at new_reader
reader_at-new bs = refl
