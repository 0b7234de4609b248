-- ===== src/Bits/EbspWriter/Golomb.antt =====
-- The exponential Golomb codes that `WriteExpGolomb` writes.
use native.Mathlib.Nat.{pow-le-pow_right, two-pow-succ}
use mp4ff.Base.{
  ℕ, zero, suc, ◌+◌, ◌-◌, ◌*◌, ◌%◌, ◌^◌, ◌≤◌, ◌<◌, ◌≡◌, arith, true, Bool-cases, inl, inr, List,
  ◌++◌, append_assoc, append-nil, leb, leb-true, leb-false, ltb,
}
use mp4ff.Base.Binary.{bits_of, bits_of-append, pow_pos}
use mp4ff.Bits.BitWriter.{Sink, BitWriter, write}
use mp4ff.Bits.BitWriter.Wrote.{Wrote, write_lem}
use mp4ff.Bits.BitReader.Golomb.{golomb_code, IsCode}
use mp4ff.Bits.EbspWriter.{EbspSink, ebsp_sink, golomb_prefix, write_code, write_exp_golomb}

-- From round `k` on, the loop comes to the number of zeros of the code.
golomb_prefix_lem :
    (fuel k p v : ℕ)
    → IsCode p v
    → k ≤ p
    → p < k + fuel
    → golomb_prefix fuel v (2 ^ k - 1) k (2 ^ suc k - 2) ≡ (p, v + 1 - 2 ^ p)
unfolding golomb_prefix
golomb_prefix_lem zero k p v c le enough = absurd (omega arith)
golomb_prefix_lem (suc fuel) k p v c le enough = elim (Bool-cases (leb p k)) [
  | inl last ↦
      let same : k ≡ p = ground arith in
      let found : leb v (2 ^ suc p - 2) ≡ true = leb-true _ _ (omega (arith, c.high)) in
      let rest : v - (2 ^ p - 1) ≡ v + 1 - 2 ^ p = omega (arith, pow_pos p) in
      rw (same, found, rest)
  | inr more ↦
      let before : suc k ≤ p = ground arith in
      let small : 2 ^ suc k ≤ 2 ^ p = pow-le-pow_right (omega arith) before in
      let wide : 2 ^ p ≤ 2 ^ 57 = pow-le-pow_right (omega arith) c.short in
      let beyond = leb-false v (2 ^ suc k - 2) (omega (arith, c.low, pow_pos (suc k))) in
      let offset : (2 ^ k - 1 + 2 ^ k) % 2 ^ 64 ≡ 2 ^ suc k - 1 =
        omega (arith, two-pow-succ k, pow_pos k) in
      let most : (2 ^ suc k - 1 + 2 ^ suc k + 2 ^ 64 - 1) % 2 ^ 64 ≡ 2 ^ suc (suc k) - 2 =
        omega (arith, two-pow-succ (suc k), pow_pos (suc k)) in
      rw (beyond, offset, most) (golomb_prefix_lem fuel (suc k) p v c before (omega arith))
]

module _ {ℓ} {K : Type ℓ} (out : Sink K)
    (never_fails : (b : ℕ) (s : EbspSink K) → ((ebsp_sink out).put b s).0 ≡ true)
    (k : EbspSink K) where
  -- A writer as `Write` leaves it, with these bits written.
  pub record Ready (w : BitWriter (EbspSink K)) (bits : List ℕ) : Type ℓ where
    pub wrote : Wrote (ebsp_sink out) k w bits
    pub few : w.n < 8
    pub small : w.v < 2 ^ 8

  pub write-Ready :
      (v n : ℕ) (w : BitWriter (EbspSink K)) (bits : List ℕ)
      → n ≤ 56
      → Ready w bits
      → Ready (write (ebsp_sink out) v n w) (bits ++ bits_of n v)
  write-Ready v n w bits le r =
      let (wrote, few, small) =
        write_lem (ebsp_sink out) never_fails k v n w bits r.few r.small le r.wrote in
      record { wrote = wrote; few = few; small = small }

  no_suffix :
      (p d : ℕ) (bits : List ℕ) {w : BitWriter (EbspSink K)}
      → p ≡ 0
      → Ready w (bits ++ bits_of (suc p) 1)
      → Ready w (bits ++ (bits_of (suc p) 1 ++ bits_of p d))
  unfolding bits_of
  no_suffix p d bits h r = rw h (rw append-nil (rw h at r))

  write_code-Ready :
      (p d : ℕ) (w : BitWriter (EbspSink K)) (bits : List ℕ)
      → p < 56
      → d < 2 ^ p
      → Ready w bits
      → Ready (write_code out (p, d) w) (bits ++ bits_of (suc p + p) (2 ^ p + d))
  unfolding write_code
  write_code-Ready p d w bits le small r =
      let e : 1 * 2 ^ p + d ≡ 2 ^ p + d = omega arith in
      let code : bits_of (suc p + p) (2 ^ p + d) ≡ bits_of (suc p) 1 ++ bits_of p d =
        rw e at (bits_of-append (suc p) p 1 d small) in
      let one : Ready (write (ebsp_sink out) 1 (p + 1) w) (bits ++ bits_of (suc p) 1) =
        let s : p + 1 ≡ suc p = omega arith in
        rw s (write-Ready 1 (suc p) w bits (omega arith) r) in
      elim (Bool-cases (ltb 0 p)) [
        | inl more ↦
            rw (more, code, ← append_assoc bits (bits_of (suc p) 1) (bits_of p d))
              (write-Ready d p (write (ebsp_sink out) 1 (p + 1) w) (bits ++ bits_of (suc p) 1)
                (omega arith) one)
        | inr last ↦ rw (last, code) (no_suffix p d bits (ground arith) one)
      ]

  -- `WriteExpGolomb` writes the code of the number, if this has at most 55 zeros.
  pub write_exp_golomb-Ready :
      (p v : ℕ) (w : BitWriter (EbspSink K)) (bits : List ℕ)
      → IsCode p v
      → p < 56
      → Ready w bits
      → Ready (write_exp_golomb out v w) (bits ++ golomb_code p v)
  unfolding write_exp_golomb
  write_exp_golomb-Ready p v w bits c le r =
      let d : ℕ = v + 1 - 2 ^ p in
      let small : d < 2 ^ p = omega (arith, c.high, c.low, two-pow-succ p) in
      let split : v + 1 ≡ 2 ^ p + d = omega (arith, c.low) in
      rw (golomb_prefix_lem 65 0 p v c (omega arith) (omega arith))
        (rw (← split) at (write_code-Ready p d w bits le small r))
