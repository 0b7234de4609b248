-- ===== src/Bits/BitReader/Golomb.antt =====
-- Exponential Golomb codes, as `ReadExpGolomb` and `ReadSignedGolomb` read them.
use mp4ff.Base.{
  ℕ, zero, suc, ◌+◌, ◌-◌, ◌*◌, ◌/◌, ◌%◌, ◌^◌, ◌≤◌, ◌<◌, ◌≡◌, refl, ap, ◌∙◌, arith, none, some, List,
  [], ◌∷◌, ◌++◌, append_assoc, append-nil, Bytes, length, length-append, ◌==◌, if◌then◌else◌,
}
use mp4ff.Base.Int.{ℤ, pos, negsuc}
use mp4ff.Base.Binary.{bits_of, bits_of-append, length-bits_of, two_pow_add, pow_pos}
use mp4ff.Base.Action.{ok, Action, ◌>>=◌}
use mp4ff.Bits.BitReader.{
  Source, BitReader, read_bits, count_zeros, bits_left, golomb_suffix, read_exp_golomb,
  read_signed_golomb,
}
use mp4ff.Bits.BitReader.Holds.{Holds, Delivers, byte_bits, length-byte_bits, read_bits_lem}
use mp4ff.Bits.BitReader.Takes.{Takes, Takes-bind, Takes-read}
use native.Mathlib.Nat.{pow-le-pow_right}

-- The code of `v`: `v + 1`, whose highest bit is the one of weight `2 ^ p`, behind `p` zeros.
abbrev pub golomb_code : ℕ → ℕ → List ℕ
golomb_code p v = bits_of (suc p + p) (v + 1)

pub record IsCode (p v : ℕ) : Type 0 where
  pub low : 2 ^ p ≤ v + 1
  pub high : v + 1 < 2 ^ suc p
  pub short : p ≤ 57

pub bits_of-zero : (k : ℕ) → bits_of (suc k) 0 ≡ 0 ∷ bits_of k 0
unfolding bits_of
bits_of-zero k =
    let e : 1 + k ≡ suc k = omega arith in
    let e' : 0 * 2 ^ k + 0 ≡ 0 = omega arith in rw (e, e') at (bits_of-append 1 k 0 0 (pow_pos k))

bits_of-one : (k : ℕ) → bits_of (suc k) 1 ≡ bits_of k 0 ++ (1 ∷ [])
unfolding bits_of
bits_of-one k = refl

-- The code is zeros, a one, and the rest of the number.
golomb_code-parts :
    (p d : ℕ) → d < 2 ^ p → bits_of (suc p + p) (2 ^ p + d) ≡ bits_of p 0 ++ (1 ∷ bits_of p d)
golomb_code-parts p d h =
    let e : 1 * 2 ^ p + d ≡ 2 ^ p + d = omega arith in
    rw (bits_of-one p, append_assoc (bits_of p 0) (1 ∷ []) (bits_of p d), e) at
      (bits_of-append (suc p) p 1 d h)

module _ {ℓ} {S : Type ℓ} (src : Source S) where
  Delivers-left : (s : S) (bs : Bytes) → Delivers src s bs → length bs ≤ src.left s
  Delivers-left s [] d = omega arith
  Delivers-left s (b ∷ bs) d =
      let (_, _, fewer, later) = d in omega (arith, fewer, Delivers-left (src.next s).1 bs later)

  pub length-le-bits_left :
      (r : BitReader S) (bits : List ℕ) → Holds src r bits → length bits ≤ bits_left src r
  unfolding bits_left
  length-le-bits_left r bits h = omega (
    arith,
    ap length h.are,
    length-append (bits_of r.n r.value) (byte_bits src h.bytes),
    length-bits_of r.n r.value,
    length-byte_bits src h.bytes,
    Delivers-left r.source h.bytes h.delivers,
  )

  pub bit_lem :
      (b : ℕ) (r : BitReader S) (rest : List ℕ)
      → b < 2
      → Holds src r (b ∷ rest)
      → ((read_bits src 1 r).0 ≡ b) × Holds src (read_bits src 1 r).1 rest
  bit_lem b r rest h s =
      let e : bits_of 1 b ≡ b ∷ [] = unfold bits_of in (let m : b % 2 ≡ b = omega arith in rw m) in
      read_bits_lem src 1 b r rest (omega arith) (omega arith) (rw e s)

  count_zeros_step :
      (fuel k : ℕ) (r : BitReader S)
      → (read_bits src 1 r).1.err ≡ none
      → count_zeros src (suc fuel) k r ≡ (
          if (read_bits src 1 r).0 == 1
          then (some k, (read_bits src 1 r).1)
          else count_zeros src fuel (suc k) (read_bits src 1 r).1)
  unfolding count_zeros
  count_zeros_step fuel k r h =
      let t = (read_bits src 1 r).1 in
      λ i. elim (h i) [
        | some e ↦ (none, t)
        | none ↦ if (read_bits src 1 r).0 == 1 then (some k, t) else count_zeros src fuel (suc k) t
      ]

  count_zeros_lem :
      (fuel p k : ℕ) (r : BitReader S) (rest : List ℕ)
      → p < fuel
      → Holds src r (bits_of p 0 ++ (1 ∷ rest))
      → (t : BitReader S) × (count_zeros src fuel k r ≡ (some (k + p), t)) × Holds src t rest
  count_zeros_lem zero p k r rest h s = absurd (omega arith)
  count_zeros_lem (suc fuel) zero k r rest h s =
      let (e, s') = bit_lem 1 r rest (omega arith) (unfold bits_of in s) in
      let same : k + 0 ≡ k = omega arith in
      ((read_bits src 1 r).1, rw same (count_zeros_step fuel k r s'.good ∙ (rw e)), s')
  count_zeros_lem (suc fuel) (suc p) k r rest h s =
      let (e, s') =
        bit_lem 0 r (bits_of p 0 ++ (1 ∷ rest)) (omega arith) (rw (bits_of-zero p) at s) in
      let (t, all, s'') =
        count_zeros_lem fuel p (suc k) (read_bits src 1 r).1 rest (omega arith) s' in
      let same : suc k + p ≡ k + suc p = omega arith in
      (t, count_zeros_step fuel k r s'.good ∙ (rw (e) (rw same at all)), s'')

  -- `return res + endBits`, where the reader has no error.
  suffix_result : ℕ → ℕ → Action (BitReader S) ℕ
  suffix_result z end_bits r = ok (
    elim r.err [ some e ↦ 0 | none ↦ ((2 ^ z % 2 ^ 64 + 2 ^ 64 - 1) % 2 ^ 64 + end_bits) % 2 ^ 64 ],
    r,
  )

  golomb_suffix_lem :
      (z d : ℕ)
      → d < 2 ^ z
      → z ≤ 57
      → Takes src (golomb_suffix src (some z)) (bits_of z d) (2 ^ z - 1 + d)
  unfolding golomb_suffix suffix_result
  golomb_suffix_lem z d h k =
      let wide : 2 ^ z ≤ 2 ^ 57 = pow-le-pow_right (omega arith) k in
      let value : ((2 ^ z % 2 ^ 64 + 2 ^ 64 - 1) % 2 ^ 64 + d) % 2 ^ 64 ≡ 2 ^ z - 1 + d =
        omega (arith, pow_pos z) in
      let after : Takes src (suffix_result z d) [] (2 ^ z - 1 + d) = record {
        run = λ r rest s. (
          r,
          (λ i. ok (
            elim (s.good i) [
              | some e ↦ 0
              | none ↦ ((2 ^ z % 2 ^ 64 + 2 ^ 64 - 1) % 2 ^ 64 + d) % 2 ^ 64
            ],
            r,
          ))
              ∙ ap (λ v. ok (v, r)) value,
          s,
        );
      } in
      rw append-nil at (Takes-bind src (suffix_result z) (Takes-read src z d h k) after)

  read_exp_golomb_step :
      (r : BitReader S)
      → r.err ≡ none
      → read_exp_golomb src r
        ≡ golomb_suffix src
            (count_zeros src (suc (bits_left src r)) 0 r).0
            (count_zeros src (suc (bits_left src r)) 0 r).1
  unfolding read_exp_golomb
  read_exp_golomb_step r h = λ i. elim (h i) [
    | some e ↦ ok (0, r)
    | none ↦
        golomb_suffix src (count_zeros src (suc (bits_left src r)) 0 r).0
          (count_zeros src (suc (bits_left src r)) 0 r).1
  ]

  -- `ReadExpGolomb` of either reader takes exactly the code of a number whose code has at most 57
  -- zeros, and gives the number.
  pub read_exp_golomb_lem :
      (p v : ℕ) → IsCode p v → Takes src (read_exp_golomb src) (golomb_code p v) v
  read_exp_golomb_lem p v c =
      let d : ℕ = v + 1 - 2 ^ p in
      let small : d < 2 ^ p = omega (arith, c.high, c.low, two_pow_add p 1) in
      let split : v + 1 ≡ 2 ^ p + d = omega (arith, c.low) in
      let value : 2 ^ p - 1 + d ≡ v = omega (arith, c.low, pow_pos p) in
      let parts = golomb_code-parts p d small in
      record {
        run = λ r rest s.
            let s' = rw (split, parts, append_assoc (bits_of p 0) (1 ∷ bits_of p d) rest) at s in
            let enough : p < suc (bits_left src r) = omega (
              arith,
              length-le-bits_left r (golomb_code p v ++ rest) s,
              length-append (golomb_code p v) rest,
              length-bits_of (suc p + p) (v + 1),
            ) in
            let (t, e, s'') =
              count_zeros_lem (suc (bits_left src r)) p 0 r (bits_of p d ++ rest) enough s' in
            let (u, e', done) = (golomb_suffix_lem p d small c.short).run t rest s'' in
            let none_first : 0 + p ≡ p = omega arith in
            let found = rw none_first at e in
            (
              u,
              read_exp_golomb_step r s.good
                  ∙ ap (λ z. golomb_suffix src z.0 z.1) found
                  ∙ e'
                  ∙ ap (λ n. ok (n, u)) value,
              done,
            );
      }

-- The place of a signed number in the order 0, 1, -1, 2, -2, and so on.
abbrev pub signed_index : ℤ → ℕ
signed_index (pos zero) = 0
signed_index (pos (suc n)) = 2 * n + 1
signed_index (negsuc n) = 2 * n + 2

abbrev signed_value : ℕ → ℤ
signed_value u =
    if u % 2 == 1
    then pos ((u + 1) % 2 ^ 64 / 2)
    else if u / 2 == 0
    then pos 0
    else negsuc (u / 2 - 1)

signed_value-index : (z : ℤ) → signed_index z < 2 ^ 60 → signed_value (signed_index z) ≡ z
signed_value-index (pos zero) h = refl
signed_value-index (pos (suc n)) h = ground arith
signed_value-index (negsuc n) h = ground arith

module _ {ℓ} {S : Type ℓ} (src : Source S) where
  signed_result : ℕ → Action (BitReader S) ℤ
  signed_result u t = ok (elim t.err [ some e ↦ pos 0 | none ↦ signed_value u ], t)

  read_signed_golomb_step :
      (r : BitReader S)
      → r.err ≡ none
      → read_signed_golomb src r ≡ (read_exp_golomb src >>= signed_result) r
  unfolding read_signed_golomb signed_result
  read_signed_golomb_step r h =
      λ i. elim (h i) [ some e ↦ ok (pos 0, r) | none ↦ (read_exp_golomb src >>= signed_result) r ]

  -- `ReadSignedGolomb` takes the code of the place of a signed number, and gives the number.
  pub read_signed_golomb_lem :
      (p : ℕ) (z : ℤ)
      → IsCode p (signed_index z)
      → Takes src (read_signed_golomb src) (golomb_code p (signed_index z)) z
  unfolding signed_result
  read_signed_golomb_lem p z c =
      let wide : 2 ^ suc p ≤ 2 ^ 58 =
        pow-le-pow_right (omega arith) {j = 58} (omega (arith, c.short)) in
      let value = signed_value-index z (omega (arith, c.high)) in
      let after : Takes src (signed_result (signed_index z)) [] z = record {
        run = λ r rest s. (
          r,
          (λ i. ok (elim (s.good i) [ some e ↦ pos 0 | none ↦ signed_value (signed_index z) ], r))
              ∙ ap (λ v. ok (v, r)) value,
          s,
        );
      } in
      let both =
        rw append-nil at
          (Takes-bind src signed_result (read_exp_golomb_lem src p (signed_index z) c) after) in
      record {
        run = λ r rest s.
            let (t, e, s') = both.run r rest s in (t, read_signed_golomb_step r s.good ∙ e, s');
      }
