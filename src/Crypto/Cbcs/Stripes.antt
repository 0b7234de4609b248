-- ===== src/Crypto/Cbcs/Stripes.antt =====
-- The stripes of `cbcsCrypt` in mp4/crypto.go: what is encrypted is decrypted, with enough fuel.
use mp4ff.Base.{
  ℕ, zero, suc, ◌%◌, ◌<◌, ◌≤◌, ◌≡◌, refl, ap, sym, ◌∙◌, arith, ◌++◌, Bytes, length, take, drop,
  length-append, length-take, length-drop, take-append-drop, Bool-cases, inl, inr, leb, ltb,
  leb-true, ltb-true, ltb-false,
}
use mp4ff.Base.Action.{Result, ok}
use mp4ff.Crypto.Protect.{cut_at}
use mp4ff.Crypto.Cbcs.{Block, CryptoDir, dir_enc, dir_dec, crypt_blocks, stripe_loop}
use mp4ff.Crypto.Cbcs.Chain.{IsCipher, crypt_blocks-undone}

-- `f` writes `out` of the same length, and `g` gives back what was there.
pub record IsPair (f g : Bytes → Result Bytes) (src out : Bytes) : Type 0 where
  pub done : f src ≡ ok out
  pub same_length : length out ≡ length src
  pub undone : g out ≡ ok src

module _ (block : Block) (c : IsCipher block) (nr_crypt nr_skip : ℕ)
    (whole : nr_crypt % 16 ≡ 0) where
  -- A round of the loop in either direction.
  stripe_last :
      (fuel : ℕ) (dir : CryptoDir) (prev front behind : Bytes) (out : Bytes × Bytes)
      → length front ≡ nr_crypt
      → crypt_blocks dir block prev front ≡ ok out
      → length behind < nr_skip
      → stripe_loop (suc fuel) dir block nr_crypt nr_skip prev (front ++ behind)
        ≡ ok (out.0 ++ behind)
  unfolding stripe_loop
  stripe_last fuel dir prev front behind out h e k =
      let (e1, e2) = cut_at nr_crypt front behind h in
      let enough =
        leb-true nr_crypt (length (front ++ behind)) (omega (arith, length-append front behind)) in
      rw (enough, e1, e, e2, ltb-true (length behind) nr_skip k)

  stripe_more :
      (fuel : ℕ) (dir : CryptoDir) (prev front skipped tail : Bytes) (out : Bytes × Bytes)
      (bytes : Bytes)
      → length front ≡ nr_crypt
      → crypt_blocks dir block prev front ≡ ok out
      → length skipped ≡ nr_skip
      → stripe_loop fuel dir block nr_crypt nr_skip out.1 tail ≡ ok bytes
      → stripe_loop (suc fuel) dir block nr_crypt nr_skip prev (front ++ (skipped ++ tail))
        ≡ ok (out.0 ++ (skipped ++ bytes))
  unfolding stripe_loop
  stripe_more fuel dir prev front skipped tail out bytes h e k r =
      let (e1, e2) = cut_at nr_crypt front (skipped ++ tail) h in
      let (e3, e4) = cut_at nr_skip skipped tail k in
      let enough =
        leb-true nr_crypt (length (front ++ (skipped ++ tail)))
          (omega (arith, length-append front (skipped ++ tail))) in
      let far =
        ltb-false (length (skipped ++ tail)) nr_skip (omega (arith, length-append skipped tail)) in
      rw (enough, e1, e, e2, far, e4, r, e2, e3)

  abbrev pub IsStripePair : ℕ → Bytes → Bytes → Bytes → Type 0
  IsStripePair fuel prev rest out =
      IsPair (stripe_loop fuel dir_enc block nr_crypt nr_skip prev)
        (stripe_loop fuel dir_dec block nr_crypt nr_skip prev) rest out

  pub stripe_loop-undone :
      (fuel : ℕ) (prev rest : Bytes)
      → 0 < nr_skip
      → length prev ≡ 16
      → length rest < fuel
      → (out : Bytes) × IsStripePair fuel prev rest out
  unfolding stripe_loop
  stripe_loop-undone zero prev rest s h b = absurd (omega arith)
  stripe_loop-undone (suc fuel) prev rest s h b = elim (Bool-cases (leb nr_crypt (length rest))) [
    | inr short ↦ (rest, record { done = rw short; same_length = refl; undone = rw short })
    | inl enough ↦
        let front = take nr_crypt rest in
        let behind = drop nr_crypt rest in
        let parts : front ++ behind ≡ rest = take-append-drop nr_crypt rest in
        let size : length front ≡ nr_crypt = ground (arith, enough, length-take nr_crypt rest) in
        let size' = length-drop nr_crypt rest in
        let (out, e1, e2, e3, e4) = crypt_blocks-undone block prev front c h (rw size whole) in
        let size'' : length out.0 ≡ nr_crypt = omega arith in
        elim (Bool-cases (ltb (length behind) nr_skip)) [
          | inl near ↦
              let near' : length behind < nr_skip = ground (arith, near) in
              (
                out.0 ++ behind,
                record {
                  done =
                      ap (λ x. stripe_loop (suc fuel) dir_enc block nr_crypt nr_skip prev x)
                        (sym parts)
                      ∙ stripe_last fuel dir_enc prev front behind out size e1 near';
                  same_length = omega (
                    arith,
                    length-append out.0 behind,
                    length-append front behind,
                    ap length parts,
                  );
                  undone =
                      stripe_last fuel dir_dec prev out.0 behind (front, out.1) size'' e4 near'
                      ∙ ap ok parts;
                },
              )
          | inr far ↦
              let skipped = take nr_skip behind in
              let tail = drop nr_skip behind in
              let far' : nr_skip ≤ length behind = ground (arith, far) in
              let parts' : skipped ++ tail ≡ behind = take-append-drop nr_skip behind in
              let skip : length skipped ≡ nr_skip = omega (arith, length-take nr_skip behind) in
              let (bytes, r) =
                stripe_loop-undone fuel out.1 tail s e3
                  (omega (arith, length-drop nr_skip behind)) in
              let all : front ++ (skipped ++ tail) ≡ rest = ap (◌++◌ front) parts' ∙ parts in
              (
                out.0 ++ (skipped ++ bytes),
                record {
                  done =
                      ap (λ x. stripe_loop (suc fuel) dir_enc block nr_crypt nr_skip prev x)
                        (sym all)
                      ∙ stripe_more fuel dir_enc prev front skipped tail out bytes size e1 skip
                          r.done;
                  same_length = omega (
                    arith,
                    length-append out.0 (skipped ++ bytes),
                    length-append skipped bytes,
                    length-append front (skipped ++ tail),
                    length-append skipped tail,
                    ap length all,
                    r.same_length,
                  );
                  undone =
                      stripe_more fuel dir_dec prev out.0 skipped bytes (front, out.1) tail size''
                        e4 skip r.undone
                      ∙ ap ok all;
                },
              )
        ]
  ]
