-- ===== src/Crypto/Cenc/Marked.antt =====
-- Which bytes the calls of `XORKeyStream` in mp4/crypto.go change, byte by byte.
use Prim.Native.Nat.{bit_xor}
use mp4ff.Base.{
  ℕ, zero, suc, ◌+◌, ◌≡◌, refl, ap, arith, Bool, true, false, [], ◌∷◌, ◌++◌, List, Bytes, take,
  drop, length, replicate,
}
use mp4ff.Crypto.Ranges.{marks}
use mp4ff.Crypto.{SubSamplePattern}
use mp4ff.Crypto.Protect.{protect}
use mp4ff.Crypto.Cenc.{xor_key_stream}

-- What is specified: of the marked bytes each is combined with the next byte of the keys.
unfoldable pub xor_marked : (ℕ → ℕ) → ℕ → List Bool → Bytes → Bytes
xor_marked keys used ms [] = []
xor_marked keys used [] (b ∷ bs) = b ∷ bs
xor_marked keys used (true ∷ ms) (b ∷ bs) = bit_xor b (keys used) ∷ xor_marked keys (suc used) ms bs
xor_marked keys used (false ∷ ms) (b ∷ bs) = b ∷ xor_marked keys used ms bs

marked_clear :
    (keys : ℕ → ℕ) (used n : ℕ) (ms : List Bool) (bs : Bytes)
    → xor_marked keys used (replicate n false ++ ms) bs
      ≡ take n bs ++ xor_marked keys used ms (drop n bs)
unfolding xor_marked
marked_clear keys used zero ms bs = refl
marked_clear keys used (suc n) ms [] = refl
marked_clear keys used (suc n) ms (b ∷ bs) = ap (◌∷◌ b) (marked_clear keys used n ms bs)

marked_protected :
    (keys : ℕ → ℕ) (used n : ℕ) (ms : List Bool) (bs : Bytes)
    → xor_marked keys used (replicate n true ++ ms) bs
      ≡ xor_key_stream keys used (take n bs) ++ xor_marked keys (used + n) ms (drop n bs)
unfolding xor_marked xor_key_stream
marked_protected keys used zero ms bs = let e : used + 0 ≡ used = omega arith in rw e
marked_protected keys used (suc n) ms [] = refl
marked_protected keys used (suc n) ms (b ∷ bs) =
    let e : used + suc n ≡ suc used + n = omega arith in
    rw e (ap (◌∷◌ (bit_xor b (keys used))) (marked_protected keys (suc used) n ms bs))

-- Without patterns every byte is marked.
pub xor_key_stream-marks :
    (keys : ℕ → ℕ) (used : ℕ) (bs : Bytes)
    → xor_key_stream keys used bs ≡ xor_marked keys used (replicate (length bs) true) bs
unfolding xor_key_stream xor_marked
xor_key_stream-marks keys used [] = refl
xor_key_stream-marks keys used (b ∷ bs) =
    ap (◌∷◌ (bit_xor b (keys used))) (xor_key_stream-marks keys (suc used) bs)

-- What is specified: the bytes that a call changes are those that its patterns mark, and without
-- patterns all.
abbrev pub coverage : List SubSamplePattern → Bytes → List Bool
coverage [] sample = replicate (length sample) true
coverage (ss ∷ sss) sample = marks (ss ∷ sss)

pub protect-marks :
    (keys : ℕ → ℕ) (used : ℕ) (sss : List SubSamplePattern) (rest : Bytes)
    → protect (xor_key_stream keys) used sss rest ≡ xor_marked keys used (marks sss) rest
unfolding protect marks xor_marked
protect-marks keys used [] [] = refl
protect-marks keys used [] (b ∷ bs) = refl
protect-marks keys used (ss ∷ sss) rest =
    let c = ss.bytes_of_clear_data in
    let p = ss.bytes_of_protected_data in
    let step = protect-marks keys (used + p) sss (drop p (drop c rest)) in
    rw (marked_clear keys used c (replicate p true ++ marks sss) rest)
      (rw (marked_protected keys used p (marks sss) (drop c rest), step))
