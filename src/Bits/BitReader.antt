-- ===== src/Bits/BitReader.antt =====
-- bits/reader.go, and the methods that bits/ebspreader.go has in the same words: bits read from a
-- source of bytes, with the first error kept in the reader. The two readers differ in the source:
-- `Source.next` takes the next byte. A `uint` has 64 bits.
pub mod Holds
pub mod Takes
pub mod Golomb
use Prim.Native.Nat.{bit_or}
use mp4ff.Base.{
  ℕ, zero, suc, ◌+◌, ◌-◌, ◌*◌, ◌/◌, ◌%◌, ◌^◌, Bool, true, false, Option, none, some, List, [], ◌∷◌,
  Bytes, length, ltb, ◌==◌, if◌then◌else◌,
}
use mp4ff.Base.Int.{ℤ, pos, negsuc}
use mp4ff.Base.Action.{Error, eof, not_aligned, ok, Action, ◌>>=◌, pure}

-- `next` is `binary.Read` of one byte: `none` at the end of the bytes. `left` is how many there are.
pub record Source {ℓ} (S : Type ℓ) : Type ℓ where
  pub next : S → Option ℕ × S
  pub left : S → ℕ

-- `source` is `rd` with `pos`, the number of bytes that were read.
pub record BitReader {ℓ} (S : Type ℓ) : Type ℓ where
  pub source : S
  pub err : Option Error
  pub n : ℕ
  pub value : ℕ

unfoldable pub new_bit_reader {ℓ} : {S : Type ℓ} → S → BitReader S
new_bit_reader s = record { source = s; err = none; n = 0; value = 0 }

module _ {ℓ} {S : Type ℓ} (src : Source S) where
  -- The loop of `Read`. Every round adds 8 bits, so `n` rounds are more than enough.
  unfoldable pub fill : ℕ → ℕ → BitReader S → BitReader S
  fill zero n r = r
  fill (suc fuel) n r =
      let shifted = r.value * 2 ^ 8 % 2 ^ 64 in
      let s = (src.next r.source).1 in
      let more =
        λ (b : ℕ). fill fuel n (record r { source = s; n = r.n + 8; value = bit_or shifted b }) in
      if ltb r.n n
      then elim (src.next r.source).0 [
        | none ↦ record r { source = s; err = some eof; value = shifted }
        | some b ↦ more b
      ]
      else r

  unfoldable pub take_bits : ℕ → BitReader S → ℕ × BitReader S
  take_bits n r = elim r.err [
    | some e ↦ (0, r)
    | none ↦ (r.value / 2 ^ (r.n - n), record r { n = r.n - n; value = r.value % 2 ^ (r.n - n) })
  ]

  unfoldable pub read_bits : ℕ → BitReader S → ℕ × BitReader S
  read_bits n r = elim r.err [ some e ↦ (0, r) | none ↦ take_bits n (fill n n r) ]

  unfoldable pub read : ℕ → Action (BitReader S) ℕ
  read n r = ok (read_bits n r)

  -- For `n` at least 1. `nr |= -1 << n` of an `nr` below 2^n is `nr - 2^n`.
  unfoldable pub read_signed : ℕ → Action (BitReader S) ℤ
  read_signed n = do
    nr ← read n
    pure (if nr / 2 ^ (n - 1) == 1 then negsuc (2 ^ n - 1 - nr) else pos nr)

  unfoldable pub read_flag : Action (BitReader S) Bool
  read_flag = do bit ← read 1; pure (bit == 1)

  -- The first loop of `ReadExpGolomb`, which counts zeros up to a 1; `none` after an error.
  unfoldable pub count_zeros : ℕ → ℕ → BitReader S → Option ℕ × BitReader S
  count_zeros zero leading_zero_bits r = (none, r)
  count_zeros (suc fuel) leading_zero_bits r =
      let b = (read_bits 1 r).0 in
      let t = (read_bits 1 r).1 in
      let rest = count_zeros fuel (suc leading_zero_bits) t in
      elim t.err [
        | some e ↦ (none, t)
        | none ↦ if b == 1 then (some leading_zero_bits, t) else rest
      ]

  unfoldable pub bits_left : BitReader S → ℕ
  bits_left r = r.n + 8 * src.left r.source

  -- What follows the prefix of a Golomb code: as many bits as it has zeros.
  unfoldable pub golomb_suffix : Option ℕ → Action (BitReader S) ℕ
  golomb_suffix none = pure 0
  golomb_suffix (some z) = do
    end_bits ← read z
    let res = (2 ^ z % 2 ^ 64 + 2 ^ 64 - 1) % 2 ^ 64
    λ r. ok (elim r.err [ some e ↦ 0 | none ↦ (res + end_bits) % 2 ^ 64 ], r)

  -- Every round of the first loop takes a bit, so the bits that are left bound it.
  unfoldable pub read_exp_golomb : Action (BitReader S) ℕ
  read_exp_golomb r = elim r.err [
    | some e ↦ ok (0, r)
    | none ↦ let zeros = count_zeros (suc (bits_left r)) 0 r in golomb_suffix zeros.0 zeros.1
  ]

  unfoldable pub read_signed_golomb : Action (BitReader S) ℤ
  read_signed_golomb r = elim r.err [
    | some e ↦ ok (pos 0, r)
    | none ↦
        (do
          unsigned_golomb ← read_exp_golomb
          λ t. ok (
            elim t.err [
              | some e ↦ pos 0
              | none ↦
                  if unsigned_golomb % 2 == 1
                  then pos ((unsigned_golomb + 1) % 2 ^ 64 / 2)
                  else if unsigned_golomb / 2 == 0
                  then pos 0
                  else negsuc (unsigned_golomb / 2 - 1)
            ],
            t,
          ))
          r
  ]

-- The source of `bits.Reader`: the bytes behind its `io.Reader`, and how many were read.
pub record ByteSource : Type 0 where
  pub bytes : Bytes
  pub nr_read : ℕ

abbrev pub next_byte : Bytes → ℕ → Option ℕ × ByteSource
next_byte [] k = (none, record { bytes = []; nr_read = k })
next_byte (b ∷ bs) k = (some b, record { bytes = bs; nr_read = suc k })

abbrev pub byte_source : Source ByteSource
byte_source = record { next = λ s. next_byte s.bytes s.nr_read; left = λ s. length s.bytes }

unfoldable pub nr_bytes_read : BitReader ByteSource → ℕ
nr_bytes_read r = r.source.nr_read

unfoldable pub nr_bits_read : BitReader ByteSource → ℕ
nr_bits_read r = if 8 - r.n == 8 then nr_bytes_read r * 8 else nr_bytes_read r * 8 + (8 - r.n) - 8

unfoldable pub byte_align : Action (BitReader ByteSource) (Unit {0})
byte_align r =
    ok (
      tt,
      elim r.err [ some e ↦ r | none ↦ if ltb 0 r.n then record r { n = 0; value = 0 } else r ],
    )

unfoldable pub read_remaining_bytes : Action (BitReader ByteSource) Bytes
read_remaining_bytes r = elim r.err [
  | some e ↦ ok ([], r)
  | none ↦
      let s = r.source in
      if r.n == 0
      then ok (s.bytes, record r { source = record { bytes = []; nr_read = s.nr_read } })
      else ok ([], record r { err = some not_aligned })
]
