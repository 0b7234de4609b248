-- ===== src/Bits/EbspWriter.antt =====
-- bits/ebspwriter.go: bits written with emulation prevention. `Write` is that of Bits/BitWriter with
-- the sink below.
pub mod Golomb
pub mod Trailing
use mp4ff.Base.{
  ℕ, zero, suc, ◌+◌, ◌-◌, ◌*◌, ◌%◌, ◌^◌, Bool, true, false, ◌&&◌, Bytes, leb, ltb, ◌==◌,
  if◌then◌else◌,
}
use mp4ff.Bits.BitWriter.{Sink, BitWriter, new_bit_writer, write}

-- `wr` and `nr0`.
pub record EbspSink {ℓ} (K : Type ℓ) : Type ℓ where
  pub under : K
  pub nr0 : ℕ

-- The loop of `WriteExpGolomb`: the length of the prefix, and `delta`.
unfoldable pub golomb_prefix : ℕ → ℕ → ℕ → ℕ → ℕ → ℕ × ℕ
golomb_prefix zero nr offset prefix_len most = (prefix_len, 0)
golomb_prefix (suc fuel) nr offset prefix_len most =
    let offset' = (offset + 2 ^ prefix_len) % 2 ^ 64 in
    let most' = (offset' + 2 ^ suc prefix_len + 2 ^ 64 - 1) % 2 ^ 64 in
    let rest = golomb_prefix fuel nr offset' (suc prefix_len) most' in
    if leb nr most then (prefix_len, nr - offset) else rest

module _ {ℓ} {K : Type ℓ} (out : Sink K) where
  abbrev pub put_byte : ℕ → K → ℕ → Bool × EbspSink K
  put_byte b k nr0 =
      let p = out.put b k in
      if p.0
      then (true, record { under = p.1; nr0 = if b == 0 then suc nr0 else 0 })
      else (false, record { under = p.1; nr0 = nr0 })

  -- The body of the loop of `Write`, which puts a 3 between two zeros and a byte up to 3.
  abbrev pub put_ebsp : ℕ → K → ℕ → Bool × EbspSink K
  put_ebsp b k nr0 =
      let p = out.put 3 k in
      if nr0 == 2 && leb b 3
      then (if p.0 then put_byte b p.1 0 else (false, record { under = p.1; nr0 = nr0 }))
      else put_byte b k nr0

  abbrev pub ebsp_sink : Sink (EbspSink K)
  ebsp_sink = record { put = λ b s. put_ebsp b s.under s.nr0 }

  abbrev pub new_ebsp_writer : K → BitWriter (EbspSink K)
  new_ebsp_writer k = new_bit_writer (record { under = k; nr0 = 0 })

  unfoldable pub write_code : ℕ × ℕ → BitWriter (EbspSink K) → BitWriter (EbspSink K)
  write_code (prefix_len, delta) w =
      let w' = write ebsp_sink 1 (prefix_len + 1) w in
      if ltb 0 prefix_len then write ebsp_sink delta prefix_len w' else w'

  -- A `uint` needs at most 64 rounds.
  unfoldable pub write_exp_golomb : ℕ → BitWriter (EbspSink K) → BitWriter (EbspSink K)
  write_exp_golomb nr = write_code (golomb_prefix 65 nr 0 0 0)

  -- With as many rounds as the value, which every round makes smaller.
  unfoldable pub sei_value_loop : ℕ → ℕ → BitWriter (EbspSink K) → BitWriter (EbspSink K)
  sei_value_loop zero val w = write ebsp_sink val 8 w
  sei_value_loop (suc fuel) val w =
      let rest = sei_value_loop fuel (val - 255) (write ebsp_sink 0xff 8 w) in
      if leb 255 val then rest else write ebsp_sink val 8 w

  unfoldable pub write_sei_value : ℕ → BitWriter (EbspSink K) → BitWriter (EbspSink K)
  write_sei_value val = sei_value_loop val val

  unfoldable pub stuff_byte_with_zeros : BitWriter (EbspSink K) → BitWriter (EbspSink K)
  stuff_byte_with_zeros w = if ltb 0 w.n then write ebsp_sink 0 (8 - w.n) w else w

  unfoldable pub write_rbsp_trailing_bits : BitWriter (EbspSink K) → BitWriter (EbspSink K)
  write_rbsp_trailing_bits w = stuff_byte_with_zeros (write ebsp_sink 1 1 w)
