-- ===== src/Crypto/Cenc.antt =====
-- mp4/crypto.go: `CryptSampleCenc`, which encrypts and decrypts by AES in counter mode.
pub mod Marked
pub mod RoundTrip
use Prim.Native.Nat.{bit_xor}
use mp4ff.Base.{
  ℕ, zero, suc, ◌+◌, ◌%◌, ◌^◌, Bool, true, false, not, [], ◌∷◌, List, ltb, ◌==◌, if◌then◌else◌,
  Bytes, length,
}
use mp4ff.Base.Action.{Result, ok, err, panic}
use mp4ff.Crypto.{SubSamplePattern, range_loop}

-- `XORKeyStream` with a stream that has given `used` bytes of its keys.
unfoldable pub xor_key_stream : (ℕ → ℕ) → ℕ → Bytes → Bytes
xor_key_stream keys used [] = []
xor_key_stream keys used (b ∷ bs) = bit_xor b (keys used) ∷ xor_key_stream keys (suc used) bs

-- `aes.NewCipher` makes a block cipher of a key, or refuses it; `cipher.NewCTR` makes of it and of a
-- block of 16 bytes a stream of keys, whose bytes `XORKeyStream` takes one after the other.
unfoldable pub crypt_sample_cenc {ℓ} :
    {Block : Type ℓ}
    → (Bytes → Result Block)
    → (Block → Bytes → ℕ → ℕ)
    → Bytes
    → Bytes
    → Bytes
    → List SubSamplePattern
    → Result Bytes
crypt_sample_cenc new_cipher new_ctr sample key iv ssps = elim (new_cipher key) [
  | err e ↦ err e
  | ok block ↦
      if length iv == 16
      then if not (length ssps == 0)
        then range_loop (λ used bs. ok (xor_key_stream (new_ctr block iv) used bs)) 0 0 ssps sample
        else ok (xor_key_stream (new_ctr block iv) 0 sample)
      else err panic
]
