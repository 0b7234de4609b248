-- ===== src/Tests/Encryption.antt =====
-- Common encryption at concrete samples, with a toy cipher.
use Prim.Native.Nat.{bit_xor}
use mp4ff.Base.{
  ℕ, ◌+◌, ◌*◌, ◌/◌, ◌%◌, ◌^◌, ◌≡◌, refl, arith, true, false, [], ◌∷◌, ◌++◌, List, Bytes, length,
  replicate, All, map, length-map,
}
use mp4ff.Base.Words.{IsUint16, be_value}
use mp4ff.Base.Masks.{bit_xor-undone}
use mp4ff.Base.Action.{Result, ok}
use mp4ff.Crypto.{SubSamplePattern, subsample, split_clear, append_protect_range}
use mp4ff.Crypto.Ranges.{marks, append_protect_range-marks, append_protect_range-bounds}
use mp4ff.Crypto.Protect.{total}
use mp4ff.Crypto.Cenc.{crypt_sample_cenc}
use mp4ff.Crypto.Cenc.Marked.{xor_marked, coverage}
use mp4ff.Crypto.Cenc.RoundTrip.{crypt_sample_cenc_round_trip}
use mp4ff.Crypto.Cbcs.{Block, encrypt_sample_cbcs, decrypt_sample_cbcs}
use mp4ff.Crypto.Cbcs.Chain.{IsCipher}
use mp4ff.Crypto.Cbcs.RoundTrip.{crypt_sample_cbcs_round_trip}
use mp4ff.Crypto.Iv.{increment_iv}
use mp4ff.Crypto.Iv.Value.{key_bytes, increment_iv-value}

append_protect_range-marks_example :
    marks (append_protect_range (subsample 5 16 ∷ []) 65540 32)
    ≡ marks (subsample 5 16 ∷ []) ++ (replicate 65540 false ++ replicate 32 true)
append_protect_range-marks_example = append_protect_range-marks (subsample 5 16 ∷ []) 65540 32

append_protect_range-bounds_example :
    All
      (λ ss. IsUint16 ss.bytes_of_clear_data)
      (append_protect_range (subsample 5 16 ∷ []) 65540 32)
    × ((split_clear 65540 65540).1 % 2 ^ 16 ≡ (split_clear 65540 65540).1)
append_protect_range-bounds_example =
    append_protect_range-bounds (subsample 5 16 ∷ []) 65540 32 (omega arith, tt)

-- The stream of keys of a toy counter mode.
abbrev pub toy_ctr : Bytes → Bytes → ℕ → ℕ
toy_ctr key iv used = (used * 7 + be_value 0 key) % 256

abbrev pub accept : Bytes → Result Bytes
accept key = ok key

abbrev pub an_iv : Bytes
an_iv = replicate 16 9

abbrev a_sample : Bytes
a_sample = 1 ∷ 2 ∷ 3 ∷ 4 ∷ 5 ∷ 6 ∷ 7 ∷ []

-- Two clear and two protected bytes, one protected byte, a clear one, and one that is not named.
abbrev patterns : List SubSamplePattern
patterns = subsample 2 2 ∷ subsample 0 1 ∷ subsample 1 0 ∷ []

crypt_sample_cenc_round_trip_example :
    (enc : Bytes) × (crypt_sample_cenc accept toy_ctr a_sample (50 ∷ []) an_iv patterns ≡ ok enc)
    × (enc ≡ xor_marked (toy_ctr (50 ∷ []) an_iv) 0 (coverage patterns a_sample) a_sample)
    × (length enc ≡ length a_sample)
    × (crypt_sample_cenc accept toy_ctr enc (50 ∷ []) an_iv patterns ≡ ok a_sample)
unfolding total
crypt_sample_cenc_round_trip_example =
    crypt_sample_cenc_round_trip accept toy_ctr (50 ∷ []) (50 ∷ []) an_iv refl refl a_sample
      patterns (omega arith) (omega arith)

-- A block cipher that combines every byte with the first byte of the key.
abbrev toy_block : Bytes → Block
toy_block key = record {
  encrypt = map (λ b. bit_xor b (be_value 0 key));
  decrypt = map (λ b. bit_xor b (be_value 0 key));
}

abbrev accept_block : Bytes → Result Block
accept_block key = ok (toy_block key)

toy_inverse : (k : ℕ) (bs : Bytes) → map (λ b. bit_xor b k) (map (λ b. bit_xor b k) bs) ≡ bs
toy_inverse k [] = refl
toy_inverse k (b ∷ bs) = rw (bit_xor-undone b k, toy_inverse k bs)

toy_block-IsCipher : (key : Bytes) → IsCipher (toy_block key)
toy_block-IsCipher key = record {
  size = λ bs h. omega (arith, length-map bs (λ b. bit_xor b (be_value 0 key)));
  inverse = λ bs h. toy_inverse (be_value 0 key) bs;
}

abbrev long_sample : Bytes
long_sample = replicate 100 7

-- One block of each two is encrypted in the first range.
crypt_sample_cbcs_round_trip_example :
    (enc : Bytes) × (encrypt_sample_cbcs accept_block long_sample
        (50 ∷ [])
        an_iv
        (subsample 3 70 ∷ subsample 0 17 ∷ [])
        1
        1
      ≡ ok enc)
    × (length enc ≡ length long_sample)
    × (decrypt_sample_cbcs accept_block enc
          (50 ∷ [])
          an_iv
          (subsample 3 70 ∷ subsample 0 17 ∷ [])
          1
          1
        ≡ ok long_sample)
unfolding total
crypt_sample_cbcs_round_trip_example =
    crypt_sample_cbcs_round_trip accept_block (toy_block (50 ∷ [])) (50 ∷ []) an_iv refl
      (toy_block-IsCipher (50 ∷ [])) refl long_sample (subsample 3 70 ∷ subsample 0 17 ∷ []) 1 1
      (omega arith) (omega arith)

-- A carry over two bytes.
increment_iv-value_example :
    (length (increment_iv (1 ∷ 255 ∷ 254 ∷ []) (subsample 3 32 ∷ subsample 0 16 ∷ []) 60) ≡ 3)
    × (be_value 0 (increment_iv (1 ∷ 255 ∷ 254 ∷ []) (subsample 3 32 ∷ subsample 0 16 ∷ []) 60)
        ≡ (be_value 0 (1 ∷ 255 ∷ 254 ∷ [])
            + (key_bytes (subsample 3 32 ∷ subsample 0 16 ∷ []) + 15) / 16)
          % 256 ^ 3)
increment_iv-value_example =
    increment_iv-value (1 ∷ 255 ∷ 254 ∷ []) (subsample 3 32 ∷ subsample 0 16 ∷ []) 60
      (omega arith, (omega arith, (omega arith, tt))) (refl, (refl, tt))
