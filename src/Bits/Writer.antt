-- ===== src/Bits/Writer.antt =====
-- bits/fixedslicewriter.go: writes whole bytes into a slice of fixed size. A write that does not fit
-- leaves the buffer alone and records the error; later writes that fit are still made, as in Go.
use mp4ff.Base.{
  ℕ, ◌+◌, ◌/◌, ◌%◌, ◌^◌, Bool, [], ◌∷◌, ◌++◌, Option, none, some, Bytes, length, take, drop,
  replicate, ltb, if◌then◌else◌,
}
use mp4ff.Base.Int.{ℤ, uint16, uint32, uint64}
use mp4ff.Base.Words.{be_bytes}
use mp4ff.Base.Action.{Error, slice_write, Result, ok, err, Action, ◌>>◌}

-- `n` and `v` are the bits of `WriteBits` that no byte holds yet.
pub record Writer : Type 0 where
  pub acc_error : Option Error
  pub buf : Bytes
  pub off : ℕ
  pub n : ℕ
  pub v : ℕ

unfoldable pub new_writer : ℕ → Writer
new_writer size = record { acc_error = none; buf = replicate size 0; off = 0; n = 0; v = 0 }

-- `sw.Bytes()`
unfoldable pub written : Writer → Bytes
written w = take w.off w.buf

-- `copy(sw.buf[sw.off:], bs); sw.off += len(bs)`, where there is room.
abbrev store : Bytes → Writer → Writer
store bs w = record w {
  buf = take w.off w.buf ++ (bs ++ drop (w.off + length bs) w.buf);
  off = w.off + length bs;
}

unfoldable pub write_bytes : Bytes → Action Writer (Unit {0})
write_bytes bs w =
    if ltb (length w.buf) (w.off + length bs)
    then ok (tt, record w { acc_error = some slice_write })
    else ok (tt, store bs w)

unfoldable pub write_uint8 : ℕ → Action Writer (Unit {0})
write_uint8 n = write_bytes (be_bytes 1 n)

unfoldable pub write_uint16 : ℕ → Action Writer (Unit {0})
write_uint16 n = write_bytes (be_bytes 2 n)

-- The room is tested for all three bytes first.
unfoldable pub write_uint24 : ℕ → Action Writer (Unit {0})
write_uint24 n w =
    if ltb (length w.buf) (w.off + 3)
    then ok (tt, record w { acc_error = some slice_write })
    else (write_uint8 (n / 2 ^ 16 % 2 ^ 8) >> write_uint16 (n % 2 ^ 16)) w

unfoldable pub write_uint32 : ℕ → Action Writer (Unit {0})
write_uint32 n = write_bytes (be_bytes 4 n)

unfoldable pub write_uint48 : ℕ → Action Writer (Unit {0})
write_uint48 u w =
    if ltb (length w.buf) (w.off + 6)
    then ok (tt, record w { acc_error = some slice_write })
    else (write_bytes (be_bytes 2 (u / 2 ^ 32 % 2 ^ 16)) >> write_bytes (be_bytes 4 (u % 2 ^ 32))) w

unfoldable pub write_uint64 : ℕ → Action Writer (Unit {0})
write_uint64 n = write_bytes (be_bytes 8 n)

unfoldable pub write_int16 : ℤ → Action Writer (Unit {0})
write_int16 z = write_bytes (be_bytes 2 (uint16 z))

unfoldable pub write_int32 : ℤ → Action Writer (Unit {0})
write_int32 z = write_bytes (be_bytes 4 (uint32 z))

unfoldable pub write_int64 : ℤ → Action Writer (Unit {0})
write_int64 z = write_bytes (be_bytes 8 (uint64 z))

unfoldable pub write_string : Bytes → Bool → Action Writer (Unit {0})
write_string s add_zero_end = write_bytes (if add_zero_end then s ++ (0 ∷ []) else s)

unfoldable pub write_zero_bytes : ℕ → Action Writer (Unit {0})
write_zero_bytes n = write_bytes (replicate n 0)

-- The matrix of mvhd and tkhd: 1.0 as 16.16 twice, and as 2.30.
unfoldable pub write_unity_matrix : Action Writer (Unit {0})
write_unity_matrix w =
    if ltb (length w.buf) (w.off + 36)
    then ok (tt, record w { acc_error = some slice_write })
    else (write_uint32 0x10000
          >> write_uint32 0
          >> write_uint32 0
          >> write_uint32 0
          >> write_uint32 0x10000
          >> write_uint32 0
          >> write_uint32 0
          >> write_uint32 0
          >> write_uint32 0x40000000)
        w

-- `return sw.AccError()`
unfoldable pub writer_error : Action Writer (Unit {0})
writer_error w = elim w.acc_error [ none ↦ ok (tt, w) | some e ↦ err e ]

-- `Encode(w io.Writer)` of a box: `EncodeSW` into a writer of `Size()` bytes. The result is what is
-- handed to `w.Write`.
unfoldable pub encode_with : ℕ → Action Writer (Unit {0}) → Result Bytes
encode_with size encode_sw = elim (encode_sw (new_writer size)) [
  | ok (_, w) ↦ ok (written w)
  | err e ↦ err e
]
