-- ===== src/Crypto/Cbcs/Chain.antt =====
-- Cipher block chaining, in mp4/crypto.go by crypto/cipher: what it encrypts it decrypts, and both
-- directions keep the same block for the next call.
use mp4ff.Base.{
  ℕ, zero, suc, ◌*◌, ◌/◌, ◌%◌, ◌≡◌, refl, ap, sym, arith, true, [], ◌∷◌, ◌==◌, Bytes, length, take,
  drop, length-append, length-take, length-drop, take-append-drop, length_eq_zero,
}
use mp4ff.Base.Action.{ok}
use mp4ff.Base.Masks.{bit_xor-undone}
use mp4ff.Crypto.Protect.{cut_at}
use mp4ff.Crypto.Cbcs.{Block, dir_enc, dir_dec, xor_bytes, chain, crypt_blocks}

-- What is known of a block cipher: a block is encrypted to a block, which is decrypted to it.
pub record IsCipher (block : Block) : Type 0 where
  pub size : (bs : Bytes) → length bs ≡ 16 → length (block.encrypt bs) ≡ 16
  pub inverse : (bs : Bytes) → length bs ≡ 16 → block.decrypt (block.encrypt bs) ≡ bs

xor_bytes-undone :
    (xs ys : Bytes)
    → length xs ≡ length ys
    → (length (xor_bytes xs ys) ≡ length xs) × (xor_bytes (xor_bytes xs ys) ys ≡ xs)
unfolding xor_bytes
xor_bytes-undone [] ys h = (refl, refl)
xor_bytes-undone (x ∷ xs) [] h = absurd (omega arith)
xor_bytes-undone (x ∷ xs) (y ∷ ys) h =
    let (e, f) = xor_bytes-undone xs ys (omega arith) in (ap suc e, rw (bit_xor-undone x y, f))

chain-undone :
    (block : Block) (n : ℕ) (prev src : Bytes)
    → IsCipher block
    → length prev ≡ 16
    → length src ≡ n * 16
    → (length (chain dir_enc block n prev src).0 ≡ n * 16)
      × (length (chain dir_enc block n prev src).1 ≡ 16)
      × (chain dir_dec block n prev (chain dir_enc block n prev src).0
          ≡ (src, (chain dir_enc block n prev src).1))
unfolding chain
chain-undone block zero prev src c h k =
    (omega arith, h, ap (λ x. (x, prev)) (sym (length_eq_zero src (omega arith))))
chain-undone block (suc n) prev src c h k =
    let front = take 16 src in
    let size : length front ≡ 16 = omega (arith, length-take 16 src) in
    let (e1, e2) = xor_bytes-undone front prev (omega arith) in
    let text = block.encrypt (xor_bytes front prev) in
    let size' = c.size (xor_bytes front prev) (omega arith) in
    let back = c.inverse (xor_bytes front prev) (omega arith) in
    let (r1, r2, r3) =
      chain-undone block n text (drop 16 src) c size' (omega (arith, length-drop 16 src)) in
    let rest = chain dir_enc block n text (drop 16 src) in
    let (e3, e4) = cut_at 16 text rest.0 size' in
    (
      omega (arith, length-append text rest.0),
      r2,
      rw (e3, e4, r3, back, e2, take-append-drop 16 src),
    )

-- The same of whole calls of `CryptBlocks`.
pub crypt_blocks-undone :
    (block : Block) (prev src : Bytes)
    → IsCipher block
    → length prev ≡ 16
    → length src % 16 ≡ 0
    → (out : Bytes × Bytes) × (crypt_blocks dir_enc block prev src ≡ ok out)
      × (length out.0 ≡ length src)
      × (length out.1 ≡ 16)
      × (crypt_blocks dir_dec block prev out.0 ≡ ok (src, out.1))
unfolding crypt_blocks
crypt_blocks-undone block prev src c h k =
    let n = length src / 16 in
    let (e1, e2, e3) = chain-undone block n prev src c h (omega arith) in
    let out = chain dir_enc block n prev src in
    let whole : (length src % 16 == 0) ≡ true = ground arith in
    let whole' : (length out.0 % 16 == 0) ≡ true = ground arith in
    let n' : length out.0 / 16 ≡ n = omega arith in
    (out, rw whole, omega arith, e2, rw (whole', n', e3))
