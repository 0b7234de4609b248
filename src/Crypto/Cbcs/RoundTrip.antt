-- ===== src/Crypto/Cbcs/RoundTrip.antt =====
-- A sample that `EncryptSampleCbcs` of mp4/crypto.go encrypts is decrypted by `DecryptSampleCbcs`.
use mp4ff.Base.{
  ℕ, zero, suc, ◌*◌, ◌/◌, ◌%◌, ◌^◌, ◌<◌, ◌≤◌, ◌≡◌, refl, ap, sym, ◌∙◌, ◌⊎◌, arith, true, false, [],
  ◌∷◌, ◌++◌, List, ◌==◌, Bytes, length, take, drop, length-append, length-take, take-append-drop,
  inl, inr,
}
use mp4ff.Base.Action.{Result, ok}
use mp4ff.Crypto.{SubSamplePattern}
use mp4ff.Crypto.Protect.{
  protect, total, length-protect, loop_undoes, loop_protects, KeepsLength, cut_at,
}
use mp4ff.Crypto.Cbcs.{
  Block, CryptoDir, dir_enc, dir_dec, crypt_blocks, stripe_loop, cbcs_crypt, crypt_sample_cbcs,
  encrypt_sample_cbcs, decrypt_sample_cbcs,
}
use mp4ff.Crypto.Cbcs.Chain.{IsCipher, crypt_blocks-undone}
use mp4ff.Crypto.Cbcs.Stripes.{IsPair, stripe_loop-undone}

zero-cases : (n : ℕ) → (n ≡ 0) ⊎ (0 < n)
zero-cases zero = inl refl
zero-cases (suc n) = inr (omega arith)

module _ (new_cipher : Bytes → Result Block) (block : Block) (key iv : Bytes)
    (accepted : new_cipher key ≡ ok block) (is_cipher : IsCipher block)
    (of_block : length iv ≡ 16) where
  module _ (nr_crypt nr_skip : ℕ) (whole : nr_crypt % 16 ≡ 0) where
    abbrev run : CryptoDir → Bytes → Result Bytes
    run dir bytes = cbcs_crypt new_cipher dir bytes key iv nr_crypt nr_skip

    in_full :
        (dir : CryptoDir) (front behind : Bytes) (out : Bytes × Bytes) (bytes : Bytes)
        → nr_skip ≡ 0
        → front ++ behind ≡ bytes
        → length front ≡ length bytes / 16 * 16
        → crypt_blocks dir block iv front ≡ ok out
        → cbcs_crypt new_cipher dir bytes key iv nr_crypt nr_skip ≡ ok (out.0 ++ behind)
    unfolding cbcs_crypt
    in_full dir front behind out bytes none parts size done =
        let e : (length iv == 16) ≡ true = ground arith in
        let f : (nr_skip == 0) ≡ true = ground arith in
        let (e1, e2) = cut_at (length bytes / 16 * 16) front behind size in
        let e3 : take (length bytes / 16 * 16) bytes ≡ front =
          ap (take (length bytes / 16 * 16)) (sym parts) ∙ e1 in
        let e4 : drop (length bytes / 16 * 16) bytes ≡ behind =
          ap (drop (length bytes / 16 * 16)) (sym parts) ∙ e2 in
        rw (cbcs_crypt, accepted, e, f, e3, done, e4)

    in_stripes :
        (dir : CryptoDir) (bytes : Bytes)
        → 0 < nr_skip
        → cbcs_crypt new_cipher dir bytes key iv nr_crypt nr_skip
          ≡ stripe_loop (suc (length bytes)) dir block nr_crypt nr_skip iv bytes
    unfolding cbcs_crypt
    in_stripes dir bytes some_skipped =
        let e : (length iv == 16) ≡ true = ground arith in
        let f : (nr_skip == 0) ≡ false = ground arith in rw (cbcs_crypt, accepted, e, f)

    cbcs_crypt-undone : (src : Bytes) → (out : Bytes) × IsPair (run dir_enc) (run dir_dec) src out
    cbcs_crypt-undone src = elim (zero-cases nr_skip) [
      | inl none ↦
          let n = length src / 16 * 16 in
          let front = take n src in
          let behind = drop n src in
          let parts : front ++ behind ≡ src = take-append-drop n src in
          let size : length front ≡ n = omega (arith, length-take n src) in
          let (out, e1, e2, e3, e4) =
            crypt_blocks-undone block iv front is_cipher of_block (omega arith) in
          let same : length (out.0 ++ behind) ≡ length src =
            omega
              (arith, length-append out.0 behind, length-append front behind, ap length parts) in
          (
            out.0 ++ behind,
            record {
              done = in_full dir_enc front behind out src none parts size e1;
              same_length = same;
              undone =
                  in_full dir_dec out.0 behind (front, out.1) (out.0 ++ behind) none refl
                    (rw same (omega arith)) e4
                  ∙ ap ok parts;
            },
          )
      | inr some_skipped ↦
          let (out, u) =
            stripe_loop-undone block is_cipher nr_crypt nr_skip whole (suc (length src)) iv src
              some_skipped of_block (omega arith) in
          (
            out,
            record {
              done = in_stripes dir_enc src some_skipped ∙ u.done;
              same_length = u.same_length;
              undone = in_stripes dir_dec out some_skipped ∙ rw u.same_length u.undone;
            },
          )
    ]

  -- Encrypting a sample of fewer than 2^32 bytes reports no error and keeps its length, with any
  -- patterns that lie within it and without patterns, for any stripes and for full encryption, and
  -- decrypting the result with the same arguments gives the sample back. The key is accepted, the block
  -- cipher decrypts what it encrypts, and the initialization vector is a block of 16 bytes.
  pub crypt_sample_cbcs_round_trip :
      (sample : Bytes) (ssps : List SubSamplePattern) (nr_crypt nr_skip : ℕ)
      → total ssps ≤ length sample
      → length sample < 2 ^ 32
      → (enc : Bytes) × (encrypt_sample_cbcs new_cipher sample key iv ssps nr_crypt nr_skip
          ≡ ok enc)
        × (length enc ≡ length sample)
        × (decrypt_sample_cbcs new_cipher enc key iv ssps nr_crypt nr_skip ≡ ok sample)
  unfolding crypt_sample_cbcs
  crypt_sample_cbcs_round_trip sample [] nr_crypt nr_skip h b =
      let (enc, u) = cbcs_crypt-undone (nr_crypt * 16) (nr_skip * 16) (omega arith) sample in
      (enc, u.done, u.same_length, u.undone)
  crypt_sample_cbcs_round_trip sample (ss ∷ sss) nr_crypt nr_skip h b =
      let pair = cbcs_crypt-undone (nr_crypt * 16) (nr_skip * 16) (omega arith) in
      let f : ℕ → Bytes → Bytes = λ used bs. (pair bs).0 in
      let size : KeepsLength f = λ used bs. (pair bs).1.same_length in
      let e : (suc (length sss) == 0) ≡ false = ground arith in
      (
        protect f 0 (ss ∷ sss) sample,
        rw e (loop_protects f _ size (ss ∷ sss) sample h b (λ used bs. (pair bs).1.done)),
        length-protect f 0 (ss ∷ sss) sample size,
        rw e (loop_undoes f _ size (ss ∷ sss) sample h b (λ used bs. (pair bs).1.undone)),
      )
