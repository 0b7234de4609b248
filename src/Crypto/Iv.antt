-- ===== src/Crypto/Iv.antt =====
-- mp4/crypto.go: `incrementIV`, the initialization vector of the next sample.
pub mod Value
use mp4ff.Base.{
  ℕ, zero, suc, ◌+◌, ◌/◌, ◌%◌, Option, none, some, [], ◌∷◌, List, ltb, ◌==◌, if◌then◌else◌, Bytes,
  length,
}
use mp4ff.Crypto.{SubSamplePattern}

-- One byte, with the bytes behind it and the steps that they left; none are left after the `break`.
unfoldable pub add_steps : ℕ → Bytes → Option ℕ → Bytes × Option ℕ
add_steps b bytes none = (b ∷ bytes, none)
add_steps b bytes (some rest) =
    let sum = b + rest in
    if ltb sum 256 then (sum ∷ bytes, none) else (sum % 256 ∷ bytes, some (sum / 256))

-- The loop runs from the last byte to the first.
unfoldable pub increment_loop : Bytes → ℕ → Bytes × Option ℕ
increment_loop [] nr_steps = ([], some nr_steps)
increment_loop (b ∷ bs) nr_steps =
    let (bytes, left) = increment_loop bs nr_steps in add_steps b bytes left

unfoldable pub increment_iv_in_place : Bytes → ℕ → Bytes
increment_iv_in_place iv nr_steps = (increment_loop iv nr_steps).0

unfoldable pub encrypted_blocks : List SubSamplePattern → ℕ
encrypted_blocks [] = 0
encrypted_blocks (s ∷ ss) = s.bytes_of_protected_data / 16 + encrypted_blocks ss

unfoldable pub increment_iv : Bytes → List SubSamplePattern → ℕ → Bytes
increment_iv in_iv ssps sample_len =
    let nr_enc_blocks =
      if length ssps == 0 then (sample_len + 15) / 16 else encrypted_blocks ssps in
    increment_iv_in_place in_iv nr_enc_blocks
