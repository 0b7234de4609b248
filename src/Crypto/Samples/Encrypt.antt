-- ===== src/Crypto/Samples/Encrypt.antt =====
-- A sample of NAL units of which mp4/crypto.go finds the protected ranges, and encrypts and decrypts them.
use mp4ff.Base.{
  ℕ, ◌+◌, ◌-◌, ◌<◌, ◌≡◌, refl, ap, sym, ◌∙◌, arith, Bool, true, false, [], ◌∷◌, ◌++◌, List, Bytes,
  length, replicate, flat, All, length-append, length-replicate,
}
use mp4ff.Base.Words.{IsUint32}
use mp4ff.Base.Action.{Result, ok}
use mp4ff.Avc.Nalus.RoundTrip.{sample_of, with_length, length-with_length}
use mp4ff.Crypto.{SubSamplePattern}
use mp4ff.Crypto.Ranges.{marks}
use mp4ff.Crypto.Protect.{total}
use mp4ff.Crypto.Cenc.{crypt_sample_cenc}
use mp4ff.Crypto.Cenc.Marked.{xor_marked}
use mp4ff.Crypto.Cenc.RoundTrip.{crypt_sample_cenc_round_trip}
use mp4ff.Crypto.Samples.{NaluSyntax, cenc, get_protect_ranges}
use mp4ff.Crypto.Samples.Cut.{nalu_marks, protected_end, protected_end-within}
use mp4ff.Crypto.Samples.Schemes.{cenc_bytes, cenc-Cuts, get_protect_ranges_cenc}

length-marks : (ssps : List SubSamplePattern) → length (marks ssps) ≡ total ssps
unfolding marks total
length-marks [] = refl
length-marks (ss ∷ sss) =
    let cs = replicate ss.bytes_of_clear_data false in
    let ps = replicate ss.bytes_of_protected_data true in
    omega (
      arith,
      length-append cs (ps ++ marks sss),
      length-append ps (marks sss),
      length-replicate ss.bytes_of_clear_data false,
      length-replicate ss.bytes_of_protected_data true,
      length-marks sss,
    )

-- Every byte of the sample is marked.
length-nalu_marks :
    (syn : NaluSyntax) (nalus : List Bytes)
    → length (flat (nalu_marks syn cenc_bytes) nalus) ≡ length (sample_of nalus)
length-nalu_marks syn [] = refl
length-nalu_marks syn (n ∷ ns) =
    let p = protected_end syn cenc_bytes n in
    let clear = replicate (4 + (length n - p)) false in
    omega (
      arith,
      length-append (nalu_marks syn cenc_bytes n) (flat (nalu_marks syn cenc_bytes) ns),
      length-append clear (replicate p true),
      length-replicate (4 + (length n - p)) false,
      length-replicate p true,
      protected_end-within syn cenc cenc_bytes n (cenc-Cuts syn n),
      length-append (with_length n) (sample_of ns),
      length-with_length n,
      length-nalu_marks syn ns,
    )

module _ {ℓ} {Block : Type ℓ} (new_cipher : Bytes → Result Block) (new_ctr : Block → Bytes → ℕ → ℕ)
    (block : Block) (key iv : Bytes) (accepted : new_cipher key ≡ ok block)
    (of_block : length iv ≡ 16) (syn : NaluSyntax) where
  -- The protect ranges of a sample of NAL units by the scheme cenc are found, and the sample is
  -- encrypted in them to one in which the marked ends of the video NAL units are combined by exclusive
  -- or with the stream of keys, and the length fields, the starts of the NAL units and all other NAL units are as they were; the same
  -- call gives the sample back. The key is accepted, the initialization vector is a block of 16 bytes,
  -- the NAL units are not empty, and the sample has fewer than 2^32 bytes.
  pub encrypt_nalus_round_trip :
      (n : Bytes) (ns : List Bytes)
      → All (λ nalu. 0 < length nalu) (n ∷ ns)
      → IsUint32 (length (sample_of (n ∷ ns)))
      → (ssps : List SubSamplePattern) × (enc : Bytes) × (get_protect_ranges syn
            (sample_of (n ∷ ns))
            cenc
          ≡ ok ssps)
        × (crypt_sample_cenc new_cipher new_ctr (sample_of (n ∷ ns)) key iv ssps ≡ ok enc)
        × (enc
            ≡ xor_marked
                (new_ctr block iv)
                0
                (flat (nalu_marks syn cenc_bytes) (n ∷ ns))
                (sample_of (n ∷ ns)))
        × (crypt_sample_cenc new_cipher new_ctr enc key iv ssps ≡ ok (sample_of (n ∷ ns)))
  unfolding total
  encrypt_nalus_round_trip n ns filled h =
      let (ssps, found, e, small) = get_protect_ranges_cenc syn n ns filled h in
      let sample = sample_of (n ∷ ns) in
      let size : total ssps ≡ length sample =
        sym (length-marks ssps) ∙ ap length e ∙ length-nalu_marks syn (n ∷ ns) in
      let long : 0 < length sample =
        omega (arith, length-append (with_length n) (sample_of ns), length-with_length n) in
      let (enc, done, back) =
        changed ssps (flat (nalu_marks syn cenc_bytes) (n ∷ ns)) sample e size long h in
      (ssps, enc, found, done.0, done.1, back)
    where
      changed :
          (ssps : List SubSamplePattern) (ms : List Bool) (sample : Bytes)
          → marks ssps ≡ ms
          → total ssps ≡ length sample
          → 0 < length sample
          → IsUint32 (length sample)
          → (enc : Bytes) × ((crypt_sample_cenc new_cipher new_ctr sample key iv ssps ≡ ok enc)
              × (enc ≡ xor_marked (new_ctr block iv) 0 ms sample))
            × (crypt_sample_cenc new_cipher new_ctr enc key iv ssps ≡ ok sample)
      changed [] ms sample e size long h = absurd (omega arith)
      changed (ss ∷ sss) ms sample e size long h =
          let (enc, done, marked, same, back) =
            crypt_sample_cenc_round_trip new_cipher new_ctr block key iv accepted of_block sample
              (ss ∷ sss) (omega arith) h in
          (enc, (done, marked ∙ ap (λ x. xor_marked (new_ctr block iv) 0 x sample) e), back)
