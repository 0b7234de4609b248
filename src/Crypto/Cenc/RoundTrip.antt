-- ===== src/Crypto/Cenc/RoundTrip.antt =====
-- The sample that is encrypted by mp4/crypto.go is decrypted by a second call.
use mp4ff.Base.{
  ℕ, suc, ◌^◌, ◌≤◌, ◌<◌, ◌≡◌, refl, ap, ◌∙◌, arith, true, false, [], ◌∷◌, List, Bytes, length, ◌==◌,
  not, if◌then◌else◌,
}
use mp4ff.Base.Action.{Result, ok}
use mp4ff.Base.Masks.{bit_xor-undone}
use mp4ff.Crypto.{range_loop, SubSamplePattern}
use mp4ff.Crypto.Protect.{protect, total, length-protect, loop_undoes, loop_protects, KeepsLength}
use mp4ff.Crypto.Cenc.Marked.{xor_marked, protect-marks, xor_key_stream-marks, coverage}
use mp4ff.Crypto.Cenc.{xor_key_stream, crypt_sample_cenc}

length-xor_key_stream : (keys : ℕ → ℕ) → KeepsLength (xor_key_stream keys)
unfolding xor_key_stream
length-xor_key_stream keys used [] = refl
length-xor_key_stream keys used (b ∷ bs) = ap suc (length-xor_key_stream keys (suc used) bs)

xor_key_stream-undone :
    (keys : ℕ → ℕ) (used : ℕ) (bs : Bytes)
    → xor_key_stream keys used (xor_key_stream keys used bs) ≡ bs
unfolding xor_key_stream
xor_key_stream-undone keys used [] = refl
xor_key_stream-undone keys used (b ∷ bs) =
    rw (bit_xor-undone b (keys used), xor_key_stream-undone keys (suc used) bs)

module _ {ℓ} {Block : Type ℓ} (new_cipher : Bytes → Result Block) (new_ctr : Block → Bytes → ℕ → ℕ)
    (block : Block) (key iv : Bytes) (accepted : new_cipher key ≡ ok block)
    (of_block : length iv ≡ 16) where
  abbrev keys : ℕ → ℕ
  keys = new_ctr block iv

  abbrev stream : ℕ → Bytes → Result Bytes
  stream used bs = ok (xor_key_stream keys used bs)

  -- What a call does that is not refused.
  crypt_runs :
      (sample : Bytes) (ssps : List SubSamplePattern)
      → crypt_sample_cenc new_cipher new_ctr sample key iv ssps ≡ (
          if not (length ssps == 0)
          then range_loop stream 0 0 ssps sample
          else ok (xor_key_stream keys 0 sample))
  unfolding crypt_sample_cenc
  crypt_runs sample ssps =
      let e : (length iv == 16) ≡ true = ground arith in rw (crypt_sample_cenc, accepted, e)

  crypt_ranges :
      (sample : Bytes) (ss : SubSamplePattern) (sss : List SubSamplePattern)
      → crypt_sample_cenc new_cipher new_ctr sample key iv (ss ∷ sss)
        ≡ range_loop stream 0 0 (ss ∷ sss) sample
  crypt_ranges sample ss sss =
      let e : (suc (length sss) == 0) ≡ false = ground arith in crypt_runs sample (ss ∷ sss) ∙ rw e

  -- A sample of fewer than 2^32 bytes is encrypted without an error: with any patterns that lie within
  -- it, exactly the bytes that they mark as protected are combined by exclusive or with the next byte of
  -- the stream of keys, and without patterns all bytes are, from the first byte of the stream on. The
  -- result is as long as the sample, and the same call on it gives the sample back. The key is accepted,
  -- and the initialization vector is a block of 16 bytes.
  pub crypt_sample_cenc_round_trip :
      (sample : Bytes) (ssps : List SubSamplePattern)
      → total ssps ≤ length sample
      → length sample < 2 ^ 32
      → (enc : Bytes) × (crypt_sample_cenc new_cipher new_ctr sample key iv ssps ≡ ok enc)
        × (enc ≡ xor_marked (new_ctr block iv) 0 (coverage ssps sample) sample)
        × (length enc ≡ length sample)
        × (crypt_sample_cenc new_cipher new_ctr enc key iv ssps ≡ ok sample)
  crypt_sample_cenc_round_trip sample [] h b =
      let enc = xor_key_stream keys 0 sample in
      (
        enc,
        crypt_runs sample [],
        xor_key_stream-marks keys 0 sample,
        length-xor_key_stream keys 0 sample,
        crypt_runs enc [] ∙ ap ok (xor_key_stream-undone keys 0 sample),
      )
  crypt_sample_cenc_round_trip sample (ss ∷ sss) h b =
      let size = length-xor_key_stream keys in
      let enc = protect (xor_key_stream keys) 0 (ss ∷ sss) sample in
      (
        enc,
        crypt_ranges sample ss sss
            ∙ loop_protects (xor_key_stream keys) stream size (ss ∷ sss) sample h b
                (λ used bs. refl),
        protect-marks keys 0 (ss ∷ sss) sample,
        length-protect (xor_key_stream keys) 0 (ss ∷ sss) sample size,
        crypt_ranges enc ss sss
            ∙ loop_undoes (xor_key_stream keys) stream size (ss ∷ sss) sample h b
                (λ used bs. ap ok (xor_key_stream-undone keys used bs)),
      )
