-- ===== src/Bits/EbspWriter/Trailing.antt =====
-- The end of a NAL unit: `WriteRbspTrailingBits` fills the last byte.
use mp4ff.Base.{
  ℕ, ◌-◌, ◌%◌, ◌<◌, ◌≡◌, ap, arith, true, Bool-cases, inl, inr, List, [], ◌∷◌, ◌++◌, append_assoc,
  append-nil, length, length-append, length-flat, All-intro, flat, ltb,
}
use mp4ff.Base.Binary.{bits_of, length-bits_of}
use mp4ff.Bits.BitWriter.{Sink, BitWriter, write}
use mp4ff.Bits.EbspWriter.{EbspSink, ebsp_sink, stuff_byte_with_zeros, write_rbsp_trailing_bits}
use mp4ff.Bits.EbspWriter.Golomb.{Ready, write-Ready}

module _ {ℓ} {K : Type ℓ} (out : Sink K)
    (never_fails : (b : ℕ) (s : EbspSink K) → ((ebsp_sink out).put b s).0 ≡ true)
    (k : EbspSink K) where
  -- The bits in the writer are those that do not fill a byte.
  n-mod :
      (w : BitWriter (EbspSink K)) (bits : List ℕ)
      → Ready out never_fails k w bits
      → w.n ≡ length bits % 8
  n-mod w bits r =
      let wrote = r.wrote in
      omega (
        arith,
        r.few,
        ap length wrote.are,
        length-append (flat (bits_of 8) wrote.bytes) (bits_of w.n w.v),
        length-bits_of w.n w.v,
        length-flat (bits_of 8) 8 wrote.bytes
            (All-intro (λ b. length (bits_of 8 b) ≡ 8) wrote.bytes (length-bits_of 8)),
      )

  -- The writer has written whole bytes, whose bits are these.
  abbrev pub Closed : BitWriter (EbspSink K) → List ℕ → Type ℓ
  Closed w bits = Ready out never_fails k w bits × (w.n ≡ 0)

  stuff-Closed :
      (w : BitWriter (EbspSink K)) (bits : List ℕ)
      → Ready out never_fails k w bits
      → (m : ℕ) × Closed (stuff_byte_with_zeros out w) (bits ++ bits_of m 0)
  unfolding stuff_byte_with_zeros bits_of
  stuff-Closed w bits r = elim (Bool-cases (ltb 0 w.n)) [
    | inl some_bits ↦
        let full = write-Ready out never_fails k 0 (8 - w.n) w bits (omega arith) r in
        let few : w.n < 8 = r.few in
        (
          8 - w.n,
          rw some_bits (
            full,
            omega (
              arith,
              n-mod w bits r,
              n-mod (write (ebsp_sink out) 0 (8 - w.n) w) _ full,
              length-append bits (bits_of (8 - w.n) 0),
              length-bits_of (8 - w.n) 0,
            ),
          ),
        )
    | inr no_bits ↦ (0, rw (no_bits, append-nil) (r, ground arith))
  ]

  -- A one, and zeros up to the end of the byte.
  pub trailing-Closed :
      (w : BitWriter (EbspSink K)) (bits : List ℕ)
      → Ready out never_fails k w bits
      → (m : ℕ) × Closed (write_rbsp_trailing_bits out w) (bits ++ (1 ∷ bits_of m 0))
  unfolding write_rbsp_trailing_bits bits_of
  trailing-Closed w bits r =
      let one = write-Ready out never_fails k 1 1 w bits (omega arith) r in
      let (m, closed) = stuff-Closed (write (ebsp_sink out) 1 1 w) (bits ++ (1 ∷ [])) one in
      (m, rw (append_assoc bits (1 ∷ []) (bits_of m 0)) at closed)
