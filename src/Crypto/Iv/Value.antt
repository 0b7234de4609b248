-- ===== src/Crypto/Iv/Value.antt =====
-- The number that an initialization vector holds, and what `incrementIV` adds to it.
use native.Mathlib.Nat.{pow-suc, mul-add-mod_self_right, mod-eq_of_lt}
use mp4ff.Base.{
  ℕ, suc, ◌+◌, ◌-◌, ◌*◌, ◌/◌, ◌%◌, ◌^◌, ◌<◌, ◌≡◌, refl, ap, sym, ◌∙◌, ◌⊎◌, arith, true, false,
  Option, none, some, [], ◌∷◌, List, ltb, ◌==◌, if◌then◌else◌, Bytes, length, All, IsByte,
  Bool-cases, inl, inr,
}
use mp4ff.Base.Words.{be_value}
use mp4ff.Crypto.{SubSamplePattern}
use mp4ff.Crypto.Iv.{
  add_steps, increment_loop, increment_iv_in_place, encrypted_blocks, increment_iv,
}

abbrev steps_left : Option ℕ → ℕ
steps_left none = 0
steps_left (some n) = n

pow_suc : (k : ℕ) → 256 ^ suc k ≡ 256 * 256 ^ k
pow_suc k = omega (arith, pow-suc 256 k)

be_value-add : (acc : ℕ) (bs : Bytes) → be_value acc bs ≡ acc * 256 ^ length bs + be_value 0 bs
be_value-add acc [] = omega arith
be_value-add acc (b ∷ bs) =
    let e : 0 + b ≡ b = omega arith in
    rw (e, be_value-add (acc * 256 + b) bs, be_value-add b bs, pow_suc (length bs)) (grind arith)

be_value-head : (b : ℕ) (bs : Bytes) → be_value 0 (b ∷ bs) ≡ b * 256 ^ length bs + be_value 0 bs
be_value-head b bs = let e : 0 + b ≡ b = omega arith in rw (e, be_value-add b bs)

be_value-bound : (bs : Bytes) → All IsByte bs → be_value 0 bs < 256 ^ length bs
be_value-bound [] h = omega arith
be_value-bound (b ∷ bs) h =
    let rec = be_value-bound bs h.1 in
    let p = h.0 in
    let whole : suc b + (255 - b) ≡ 256 = omega arith in
    let whole' = ap (λ x. x * 256 ^ length bs) whole in
    rw (be_value-head b bs, pow_suc (length bs)) (grind arith)

record IsSum (bs : Bytes) (n : ℕ) (out : Bytes × Option ℕ) : Type 0 where
  same_length : length out.0 ≡ length bs
  all_bytes : All IsByte out.0
  value : be_value 0 bs + n ≡ steps_left out.1 * 256 ^ length bs + be_value 0 out.0

add_steps-IsSum :
    (b : ℕ) (bs : Bytes) (n : ℕ) (out : Bytes) (left : Option ℕ)
    → b < 256
    → IsSum bs n (out, left)
    → IsSum (b ∷ bs) n (add_steps b out left)
unfolding add_steps
add_steps-IsSum b bs n out none h s = record {
  same_length = ap suc s.same_length;
  all_bytes = (h, s.all_bytes);
  value = rw (be_value-head b bs, be_value-head b out, s.same_length) (omega (arith, s.value));
}
add_steps-IsSum b bs n out (some rest) h s = go (Bool-cases (ltb (b + rest) 256))
  where
    go :
        (ltb (b + rest) 256 ≡ true) ⊎ (ltb (b + rest) 256 ≡ false)
        → IsSum (b ∷ bs) n (add_steps b out (some rest))
    go (inl small) = rw small (record {
      same_length = ap suc s.same_length;
      all_bytes = (ground (arith, small), s.all_bytes);
      value =
          rw (be_value-head b bs, be_value-head (b + rest) out, s.same_length)
            (let v = s.value in grind arith);
    })
    go (inr large) = rw large (record {
      same_length = ap suc s.same_length;
      all_bytes = (omega arith, s.all_bytes);
      value =
          rw
            (
              be_value-head b bs,
              be_value-head ((b + rest) % 256) out,
              s.same_length,
              pow_suc (length bs),
            )
            (let v = s.value in
              let sum : (b + rest) / 256 * 256 + (b + rest) % 256 ≡ b + rest = omega arith in
              let sum' = ap (λ x. x * 256 ^ length bs) sum in grind arith);
    })

increment_loop-IsSum : (bs : Bytes) (n : ℕ) → All IsByte bs → IsSum bs n (increment_loop bs n)
unfolding increment_loop
increment_loop-IsSum [] n h = record { same_length = refl; all_bytes = tt; value = omega arith }
increment_loop-IsSum (b ∷ bs) n h = add_steps-IsSum b bs n _ _ h.0 (increment_loop-IsSum bs n h.1)

increment_iv_in_place-value :
    (iv : Bytes) (n : ℕ)
    → All IsByte iv
    → (length (increment_iv_in_place iv n) ≡ length iv)
      × (be_value 0 (increment_iv_in_place iv n) ≡ (be_value 0 iv + n) % 256 ^ length iv)
unfolding increment_iv_in_place
increment_iv_in_place-value iv n h =
    let s = increment_loop-IsSum iv n h in
    let out = (increment_loop iv n).0 in
    let bound = be_value-bound out s.all_bytes in
    (
      s.same_length,
      rw s.value (sym (mul-add-mod_self_right _ _ _ ∙ mod-eq_of_lt (rw s.same_length at bound))),
    )

-- The bytes of the key stream that a sample takes.
abbrev pub key_bytes : List SubSamplePattern → ℕ
key_bytes [] = 0
key_bytes (s ∷ ss) = s.bytes_of_protected_data + key_bytes ss

encrypted_blocks-whole :
    (ss : List SubSamplePattern)
    → All (λ s. s.bytes_of_protected_data % 16 ≡ 0) ss
    → (encrypted_blocks ss ≡ (key_bytes ss + 15) / 16) × (key_bytes ss % 16 ≡ 0)
unfolding encrypted_blocks
encrypted_blocks-whole [] h = (refl, refl)
encrypted_blocks-whole (s ∷ ss) h =
    let (e, f) = encrypted_blocks-whole ss h.1 in let g = h.0 in (omega arith, omega arith)

-- The vector of the next sample is, as a number that wraps around at its length, as far behind that of
-- this sample as there are blocks of the key stream that this sample took, the last of them perhaps in
-- part. The vector is a string of bytes, and every protected range is whole blocks.
pub increment_iv-value :
    (iv : Bytes) (ssps : List SubSamplePattern) (sample_len : ℕ)
    → All IsByte iv
    → All (λ s. s.bytes_of_protected_data % 16 ≡ 0) ssps
    → (length (increment_iv iv ssps sample_len) ≡ length iv)
      × (be_value 0 (increment_iv iv ssps sample_len)
          ≡ (be_value 0 iv + ((if length ssps == 0 then sample_len else key_bytes ssps) + 15) / 16)
            % 256 ^ length iv)
unfolding increment_iv
increment_iv-value iv [] n h k = increment_iv_in_place-value iv ((n + 15) / 16) h
increment_iv-value iv (s ∷ ss) n h k =
    let some_ranges : (suc (length ss) == 0) ≡ false = ground arith in
    rw (some_ranges, sym (encrypted_blocks-whole (s ∷ ss) k).0)
      (increment_iv_in_place-value iv (encrypted_blocks (s ∷ ss)) h)
