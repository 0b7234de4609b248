-- ===== src/Crypto/Cbcs.antt =====
-- mp4/crypto.go: `DecryptSampleCbcs` and `EncryptSampleCbcs`, AES in cipher block chaining on stripes
-- of the protected ranges; crypto/cipher's chaining, with the block cipher as a parameter.
pub mod Chain
pub mod Stripes
pub mod RoundTrip
use Prim.Native.Nat.{bit_xor}
use mp4ff.Base.{
  ℕ, zero, suc, ◌+◌, ◌*◌, ◌/◌, ◌%◌, not, [], ◌∷◌, ◌++◌, List, ltb, leb, ◌==◌, if◌then◌else◌, Bytes,
  length, take, drop,
}
use mp4ff.Base.Action.{Result, ok, err, panic, out_of_fuel}
use mp4ff.Crypto.{SubSamplePattern, range_loop}

-- `crypto/cipher.Block`, on blocks of 16 bytes.
pub record Block : Type 0 where
  pub encrypt : Bytes → Bytes
  pub decrypt : Bytes → Bytes

-- The two constants; every call is with one of them.
pub data CryptoDir : Type 0 where
  dir_enc dir_dec : CryptoDir

-- `subtle.XORBytes`
unfoldable pub xor_bytes : Bytes → Bytes → Bytes
xor_bytes [] ys = []
xor_bytes (x ∷ xs) [] = []
xor_bytes (x ∷ xs) (y ∷ ys) = bit_xor x y ∷ xor_bytes xs ys

-- A block mode keeps the last block of encrypted bytes, at first the initialization vector. The result
-- is what is written, and the block that is kept.
unfoldable pub chain : CryptoDir → Block → ℕ → Bytes → Bytes → Bytes × Bytes
chain dir block zero prev src = ([], prev)
chain dir_enc block (suc n) prev src =
    let cipher_text = block.encrypt (xor_bytes (take 16 src) prev) in
    let (rest, last) = chain dir_enc block n cipher_text (drop 16 src) in
    (cipher_text ++ rest, last)
chain dir_dec block (suc n) prev src =
    let cipher_text = take 16 src in
    let (rest, last) = chain dir_dec block n cipher_text (drop 16 src) in
    (xor_bytes (block.decrypt cipher_text) prev ++ rest, last)

-- `cipher.BlockMode.CryptBlocks`, which panics unless it is given whole blocks.
unfoldable pub crypt_blocks : CryptoDir → Block → Bytes → Bytes → Result (Bytes × Bytes)
crypt_blocks dir block prev src =
    if length src % 16 == 0 then ok (chain dir block (length src / 16) prev src) else err panic

-- `for size-pos >= nrInCryptBlock`, with the bytes from `pos` on.
unfoldable pub stripe_loop : ℕ → CryptoDir → Block → ℕ → ℕ → Bytes → Bytes → Result Bytes
stripe_loop zero dir block nr_crypt nr_skip prev rest = err out_of_fuel
stripe_loop (suc fuel) dir block nr_crypt nr_skip prev rest =
    let behind = drop nr_crypt rest in
    if leb nr_crypt (length rest)
    then elim (crypt_blocks dir block prev (take nr_crypt rest)) [
      | err e ↦ err e
      | ok out ↦
          let tail = stripe_loop fuel dir block nr_crypt nr_skip out.1 (drop nr_skip behind) in
          if ltb (length behind) nr_skip
          then ok (out.0 ++ behind)
          else elim tail [ err e ↦ err e | ok bytes ↦ ok (out.0 ++ (take nr_skip behind ++ bytes)) ]
    ]
    else ok rest

unfoldable pub cbcs_crypt :
    (Bytes → Result Block) → CryptoDir → Bytes → Bytes → Bytes → ℕ → ℕ → Result Bytes
cbcs_crypt new_cipher dir bytes key iv nr_crypt nr_skip =
    let size = length bytes in
    elim (new_cipher key) [
      | err e ↦ err e
      | ok block ↦
          if length iv == 16
          then (if nr_skip == 0
              then (let nr_to_crypt = size / 16 * 16 in
                  elim (crypt_blocks dir block iv (take nr_to_crypt bytes)) [
                    | err e ↦ err e
                    | ok out ↦ ok (out.0 ++ drop nr_to_crypt bytes)
                  ])
              else stripe_loop (suc size) dir block nr_crypt nr_skip iv bytes)
          else err panic
    ]

-- Of the box `TencBox` two fields are read, the numbers of 16-byte blocks that are encrypted and that
-- are skipped.
unfoldable pub crypt_sample_cbcs :
    (Bytes → Result Block)
    → CryptoDir
    → Bytes
    → Bytes
    → Bytes
    → List SubSamplePattern
    → ℕ
    → ℕ
    → Result Bytes
crypt_sample_cbcs new_cipher dir sample key iv ssps default_crypt_byte_block
      default_skip_byte_block =
    let nr_crypt = default_crypt_byte_block * 16 in
    let nr_skip = default_skip_byte_block * 16 in
    if not (length ssps == 0)
    then range_loop (λ used bs. cbcs_crypt new_cipher dir bs key iv nr_crypt nr_skip) 0 0 ssps
        sample
    else cbcs_crypt new_cipher dir sample key iv nr_crypt nr_skip

abbrev pub encrypt_sample_cbcs :
    (Bytes → Result Block) → Bytes → Bytes → Bytes → List SubSamplePattern → ℕ → ℕ → Result Bytes
encrypt_sample_cbcs new_cipher = crypt_sample_cbcs new_cipher dir_enc

abbrev pub decrypt_sample_cbcs :
    (Bytes → Result Block) → Bytes → Bytes → Bytes → List SubSamplePattern → ℕ → ℕ → Result Bytes
decrypt_sample_cbcs new_cipher = crypt_sample_cbcs new_cipher dir_dec
