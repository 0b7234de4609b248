-- ===== src/Bits/BitWriter.antt =====
-- bits/writer.go, and what bits/ebspwriter.go has in the same words: bits written to a sink of bytes,
-- with the first error kept in the writer. The two writers differ in the sink: `Sink.put` writes the
-- next byte. A `uint` has 64 bits.
pub mod Wrote
use Prim.Native.Nat.{bit_or}
use mp4ff.Base.{
  ℕ, zero, suc, ◌+◌, ◌-◌, ◌*◌, ◌/◌, ◌%◌, ◌^◌, Bool, true, false, Option, none, some, Bytes, leb,
  ltb, ◌==◌, if◌then◌else◌,
}
use mp4ff.Base.Action.{Error, slice_write}

-- `put` gives false where the underlying writer fails.
pub record Sink {ℓ} (K : Type ℓ) : Type ℓ where
  pub put : ℕ → K → Bool × K

pub record BitWriter {ℓ} (K : Type ℓ) : Type ℓ where
  pub sink : K
  pub err : Option Error
  pub n : ℕ
  pub v : ℕ

unfoldable pub new_bit_writer {ℓ} : {K : Type ℓ} → K → BitWriter K
new_bit_writer k = record { sink = k; err = none; n = 0; v = 0 }

-- `Mask(n)` is a mask for the remainder by 2^n.
module _ {ℓ} {K : Type ℓ} (out : Sink K) where
  -- The loop of `Write`. Every round takes 8 bits, so as many rounds as bits are more than enough.
  unfoldable pub write_whole : ℕ → BitWriter K → BitWriter K
  write_whole zero w = w
  write_whole (suc fuel) w =
      let s = out.put (w.v / 2 ^ (w.n - 8) % 2 ^ 8) w.sink in
      let rest = write_whole fuel (record w { sink = s.1; n = w.n - 8 }) in
      if ltb w.n 8 then w else if s.0 then rest else record w { sink = s.1; err = some slice_write }

  -- `w.v &= Mask(8)`, which is not reached after an error.
  unfoldable pub mask_value : BitWriter K → BitWriter K
  mask_value w = elim w.err [ some e ↦ w | none ↦ record w { v = w.v % 2 ^ 8 } ]

  unfoldable pub write : ℕ → ℕ → BitWriter K → BitWriter K
  write bits n w = elim w.err [
    | some e ↦ w
    | none ↦ mask_value (
        write_whole (w.n + n)
          (record w { v = bit_or (w.v * 2 ^ n % 2 ^ 64) (bits % 2 ^ n); n = w.n + n }))
  ]

  -- The bits that are left are written with zeros behind them; `n` and `v` stay as they are.
  unfoldable pub flush : BitWriter K → BitWriter K
  flush w =
      let s = out.put (w.v * 2 ^ (8 - w.n) % 2 ^ 64 % 2 ^ 8) w.sink in
      elim w.err [
        | some e ↦ w
        | none ↦
            if w.n == 0
            then w
            else record w { sink = s.1; err = if s.0 then none else some slice_write }
      ]
