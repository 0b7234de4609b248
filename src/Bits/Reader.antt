-- ===== src/Bits/Reader.antt =====
-- bits/fixedslicereader.go: reads from a slice, with the first error kept in the reader.
-- `len - n` may be negative in Go, so `pos > len - n` is written `len < pos + n`.
use mp4ff.Base.{
  ℕ, suc, ◌+◌, ◌-◌, true, false, [], ◌∷◌, Option, none, some, Bytes, length, take, drop, ltb, leb,
  ◌==◌, if◌then◌else◌,
}
use mp4ff.Base.Int.{ℤ, pos, negsuc, int16, int32, int64}
use mp4ff.Base.Words.{be_value}
use mp4ff.Base.Action.{
  Error, slice_read, no_terminating_zero, negative_read, skip_beyond, pos_beyond, ok, err, Action,
  ◌>>=◌, pure,
}

pub record Reader : Type 0 where
  pub err : Option Error
  pub slice : Bytes
  pub pos : ℕ
  pub len : ℕ

unfoldable pub new_reader : Bytes → Reader
new_reader data_bytes = record { err = none; slice = data_bytes; pos = 0; len = length data_bytes }

-- `if sr.AccError() != nil { return nil, sr.AccError() }`
unfoldable pub acc_error : Action Reader (Unit {0})
acc_error s = elim s.err [ none ↦ ok (tt, s) | some e ↦ err e ]

-- `return b, sr.AccError()`, where the caller drops the value if there is an error.
abbrev pub finish {ℓ} : {A : Type ℓ} → A → Action Reader A
finish a = acc_error >>= λ _. pure a

abbrev slice_from : Reader → ℕ → Bytes
slice_from s n = take n (drop s.pos s.slice)

-- `ReadUint8`, `ReadUint16`, `ReadUint24`, `ReadUint32` and `ReadUint64` differ in the width `n` alone.
unfoldable pub read_uint : ℕ → Reader → ℕ × Reader
read_uint n s = elim s.err [
  | some e ↦ (0, s)
  | none ↦
      if ltb s.len (s.pos + n)
      then (0, record s { err = some slice_read })
      else (be_value 0 (slice_from s n), record s { pos = s.pos + n })
]

unfoldable pub read_uint8 : Action Reader ℕ
unfolding read_uint
read_uint8 s = ok (read_uint 1 s)

unfoldable pub read_uint16 : Action Reader ℕ
unfolding read_uint
read_uint16 s = ok (read_uint 2 s)

unfoldable pub read_uint24 : Action Reader ℕ
unfolding read_uint
read_uint24 s = ok (read_uint 3 s)

unfoldable pub read_uint32 : Action Reader ℕ
unfolding read_uint
read_uint32 s = ok (read_uint 4 s)

unfoldable pub read_uint64 : Action Reader ℕ
unfolding read_uint
read_uint64 s = ok (read_uint 8 s)

unfoldable pub read_int16 : Action Reader ℤ
read_int16 = do u ← read_uint16; pure (int16 u)

unfoldable pub read_int32 : Action Reader ℤ
read_int32 = do u ← read_uint32; pure (int32 u)

unfoldable pub read_int64 : Action Reader ℤ
read_int64 = do u ← read_uint64; pure (int64 u)

-- For `n` at least 0.
unfoldable pub read_fixed_length_string : ℕ → Action Reader Bytes
read_fixed_length_string n s = elim s.err [
  | some e ↦ ok ([], s)
  | none ↦
      if ltb s.len (s.pos + n)
      then ok ([], record s { err = some slice_read })
      else ok (slice_from s n, record s { pos = s.pos + n })
]

-- The loop of `ReadZeroTerminatedString`, on the bytes that are left before `maxPos`.
pub find_zero : Bytes → Option ℕ
find_zero [] = none
find_zero (c ∷ cs) = elim (c == 0) [
  | true ↦ some 0
  | false ↦ elim (find_zero cs) [ none ↦ none | some k ↦ some (suc k) ]
]

-- A read that finds no zero stands at `maxPos`, and so does one that starts there or behind.
unfoldable pub read_zero_terminated_string : ℕ → Action Reader Bytes
read_zero_terminated_string max_len s = elim s.err [
  | some e ↦ ok ([], s)
  | none ↦
      let max_pos = if ltb s.len (s.pos + max_len) then s.len else s.pos + max_len in
      elim (find_zero (slice_from s (max_pos - s.pos))) [
        | none ↦ ok (
          [],
          record s {
            err = some no_terminating_zero;
            pos = if leb max_pos s.pos then s.pos else max_pos;
          },
        )
        | some k ↦ ok (slice_from s k, record s { pos = s.pos + k + 1 })
      ]
]

-- A negative `n` is an error even after an error; the last error is kept.
unfoldable pub read_bytes : ℤ → Action Reader Bytes
read_bytes (negsuc n) s = ok ([], record s { err = some negative_read })
read_bytes (pos n) s = elim s.err [
  | some e ↦ ok ([], s)
  | none ↦
      if ltb s.len (s.pos + n)
      then ok ([], record s { err = some slice_read })
      else ok (slice_from s n, record s { pos = s.pos + n })
]

unfoldable pub remaining_bytes : Action Reader Bytes
remaining_bytes s = elim s.err [
  | some e ↦ ok ([], s)
  | none ↦ ok (drop s.pos s.slice, record s { pos = s.len })
]

unfoldable pub nr_remaining_bytes : Action Reader ℕ
nr_remaining_bytes s = elim s.err [ some e ↦ ok (0, s) | none ↦ ok (s.len - s.pos, s) ]

-- For `n` at least 0.
unfoldable pub skip_bytes : ℕ → Action Reader (Unit {0})
skip_bytes n s = elim s.err [
  | some e ↦ ok (tt, s)
  | none ↦
      if ltb s.len (s.pos + n)
      then ok (tt, record s { err = some skip_beyond })
      else ok (tt, record s { pos = s.pos + n })
]

unfoldable pub set_pos : ℕ → Action Reader (Unit {0})
set_pos p s =
    if ltb s.len p
    then ok (tt, record s { err = some pos_beyond })
    else ok (tt, record s { pos = p })

unfoldable pub get_pos : Action Reader ℕ
get_pos s = ok (s.pos, s)
