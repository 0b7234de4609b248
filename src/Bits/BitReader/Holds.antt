-- ===== src/Bits/BitReader/Holds.antt =====
-- What bits a reader has before it, and what `Read` takes of them.
use mp4ff.Base.{
  ℕ, zero, suc, ◌+◌, ◌-◌, ◌*◌, ◌/◌, ◌%◌, ◌^◌, ◌≤◌, ◌<◌, ◌≡◌, refl, sym, ap, ◌∙◌, arith, none, some,
  List, [], ◌∷◌, ◌++◌, append_assoc, Bytes, length, length-append, length-flat, All-intro,
  append_cancel, length_eq_zero, ltb-true, ltb, ltb-false, Bool-cases, inl, inr, flat, IsByte,
}
use mp4ff.Base.Binary.{
  bits_of, length-bits_of, bits_of-append, bits_of-split, bits_of-injective, bit_or-add, pow_pos,
  two_pow_add,
}
use mp4ff.Base.Action.{eof}
use mp4ff.Bits.BitReader.{Source, BitReader, fill, take_bits, read_bits}
use native.Mathlib.Nat.{pow-le-pow_right, div-lt_iff_lt-mul}
use native.Mathlib.Numerals.{towards_suc}
use Prim.Native.Nat.{bit_or}

module _ {ℓ} {S : Type ℓ} (src : Source S) where
  -- The source gives these bytes and then ends, and each takes one of what is left.
  abbrev pub Delivers : S → Bytes → Type 0
  Delivers s [] = (src.next s).0 ≡ none
  Delivers s (b ∷ bs) =
      ((src.next s).0 ≡ some b)
      × IsByte b
      × (src.left (src.next s).1 < src.left s)
      × Delivers (src.next s).1 bs

  -- The bits of the bytes.
  abbrev pub byte_bits : Bytes → List ℕ
  byte_bits bs = flat (bits_of 8) bs

  -- The reader has no error, and its bits and those of the bytes of its source are `bits`.
  pub record Holds (r : BitReader S) (bits : List ℕ) : Type ℓ where
    pub good : r.err ≡ none
    pub small : r.value < 2 ^ r.n
    pub bytes : Bytes
    pub delivers : Delivers r.source bytes
    pub are : bits_of r.n r.value ++ byte_bits bytes ≡ bits

  -- One round of the loop puts the next byte behind the bits in the reader.
  next_bits :
      (n v b : ℕ) (rest : List ℕ)
      → IsByte b
      → bits_of (n + 8) (v * 2 ^ 8 + b) ++ rest ≡ bits_of n v ++ (bits_of 8 b ++ rest)
  next_bits n v b rest h =
      ap (λ bs. bs ++ rest) (bits_of-append n 8 v b h)
      ∙ append_assoc (bits_of n v) (bits_of 8 b) rest

  -- The value does not outgrow its 64 bits while fewer than 57 bits are in the reader.
  next_value :
      (n v b : ℕ)
      → v < 2 ^ n
      → n ≤ 56
      → IsByte b
      → (bit_or (v * 2 ^ 8 % 2 ^ 64) b ≡ v * 2 ^ 8 + b) × (v * 2 ^ 8 + b < 2 ^ (n + 8))
  next_value n v b h k hb =
      let wide : 2 ^ n ≤ 2 ^ 56 = pow-le-pow_right (omega arith) k in
      let e : v * 2 ^ 8 % 2 ^ 64 ≡ v * 2 ^ 8 = omega arith in
      let p : 2 ^ (n + 8) ≡ 2 ^ n * 2 ^ 8 = simp towards_suc (omega arith) in
      (rw e (bit_or-add 8 v b hb), rw p (omega arith))

  fill_lem :
      (fuel n : ℕ) (r : BitReader S) (bytes : Bytes)
      → r.err ≡ none
      → r.value < 2 ^ r.n
      → Delivers r.source bytes
      → n ≤ r.n + 8 * length bytes
      → n ≤ 57
      → n ≤ r.n + fuel
      → Holds (fill src fuel n r) (bits_of r.n r.value ++ byte_bits bytes)
        × (n ≤ (fill src fuel n r).n)
  unfolding fill
  fill_lem zero n r bytes good small d room k enough =
      (record { good = good; small = small; bytes = bytes; delivers = d; are = refl }, omega arith)
  fill_lem (suc fuel) n r [] good small d room k enough =
      rw (ltb-false r.n n (omega arith))
        (record { good = good; small = small; bytes = []; delivers = d; are = refl }, omega arith)
  fill_lem (suc fuel) n r (b ∷ bs) good small d room k enough = elim (Bool-cases (ltb r.n n)) [
    | inr full ↦ rw full (
      record { good = good; small = small; bytes = b ∷ bs; delivers = d; are = refl },
      ground arith,
    )
    | inl more ↦ rw more (
        let (given, byte, fewer, later) = d in
        let few : r.n ≤ 56 = ground arith in
        let (value, fits) = next_value r.n r.value b small few byte in
        let e =
          ap (λ v. bits_of (r.n + 8) v ++ byte_bits bs) value
          ∙ next_bits r.n r.value b (byte_bits bs) byte in
        rw given (
          rw e at (
            fill_lem fuel n
              (record r {
                source = (src.next r.source).1;
                n = r.n + 8;
                value = bit_or (r.value * 2 ^ 8 % 2 ^ 64) b;
              })
              bs good (rw value fits) later (omega arith) k (omega arith))))
  ]

  read_bits_good :
      (n : ℕ) (r : BitReader S)
      → r.err ≡ none
      → read_bits src n r ≡ take_bits src n (fill src n n r)
  unfolding read_bits
  read_bits_good n r h =
      λ i. elim (h i) [ some e ↦ (0, r) | none ↦ take_bits src n (fill src n n r) ]

  taken : ℕ → BitReader S → ℕ × BitReader S
  taken n r = (r.value / 2 ^ (r.n - n), record r { n = r.n - n; value = r.value % 2 ^ (r.n - n) })

  take_bits_good : (n : ℕ) (r : BitReader S) → r.err ≡ none → take_bits src n r ≡ taken n r
  unfolding take_bits taken
  take_bits_good n r h = λ i. elim (h i) [ some e ↦ (0, r) | none ↦ taken n r ]

  -- The highest `n` bits of those in the reader.
  take_bits_lem :
      (n v : ℕ) (r : BitReader S) (rest : List ℕ)
      → Holds r (bits_of n v ++ rest)
      → v < 2 ^ n
      → n ≤ r.n
      → ((take_bits src n r).0 ≡ v) × Holds (take_bits src n r).1 rest
  unfolding taken
  take_bits_lem n v r rest h hv le =
      let k : ℕ = r.n - n in
      let e : r.n ≡ n + k = omega arith in
      let small : r.value < 2 ^ n * 2 ^ k = rw (← two_pow_add n k) (rw e at h.small) in
      let hi : r.value / 2 ^ k < 2 ^ n = (div-lt_iff_lt-mul (pow_pos k)).1 small in
      let lo : r.value % 2 ^ k < 2 ^ k = grind (arith, pow_pos k) in
      let halves : bits_of r.n r.value
          ≡ bits_of n (r.value / 2 ^ k) ++ bits_of k (r.value % 2 ^ k) =
        ap (λ m. bits_of m r.value) e ∙ bits_of-split n k r.value in
      let joined =
        sym (
          append_assoc (bits_of n (r.value / 2 ^ k)) (bits_of k (r.value % 2 ^ k))
            (byte_bits h.bytes))
        ∙ ap (λ bs. bs ++ byte_bits h.bytes) (sym halves)
        ∙ h.are in
      let (same, left) =
        append_cancel (bits_of n (r.value / 2 ^ k)) (bits_of n v) _ _
          (length-bits_of n (r.value / 2 ^ k) ∙ sym (length-bits_of n v)) joined in
      rw (take_bits_good n r h.good) (
        bits_of-injective n (r.value / 2 ^ k) v hi hv same,
        record { good = h.good; small = lo; bytes = h.bytes; delivers = h.delivers; are = left },
      )

  pub length-byte_bits : (bs : Bytes) → length (byte_bits bs) ≡ length bs * 8
  length-byte_bits bs =
      length-flat (bits_of 8) 8 bs (All-intro (λ b. length (bits_of 8 b) ≡ 8) bs (length-bits_of 8))

  pub read_bits_lem :
      (n v : ℕ) (r : BitReader S) (rest : List ℕ)
      → v < 2 ^ n
      → n ≤ 57
      → Holds r (bits_of n v ++ rest)
      → ((read_bits src n r).0 ≡ v) × Holds (read_bits src n r).1 rest
  read_bits_lem n v r rest hv k h =
      let room : n ≤ r.n + 8 * length h.bytes = omega (
        arith,
        ap length h.are,
        length-append (bits_of r.n r.value) (byte_bits h.bytes),
        length-append (bits_of n v) rest,
        length-bits_of r.n r.value,
        length-bits_of n v,
        length-byte_bits h.bytes,
      ) in
      let (f, full) = fill_lem n n r h.bytes h.good h.small h.delivers room k (omega arith) in
      rw (read_bits_good n r h.good)
        (take_bits_lem n v (fill src n n r) rest (rw h.are at f) hv full)

  -- At the end of the bits, the next read meets the end of the source.
  pub read_bits-end : (r : BitReader S) → Holds r [] → (read_bits src 1 r).1.err ≡ some eof
  unfolding fill take_bits
  read_bits-end r h =
      let sizes : r.n + length h.bytes * 8 ≡ 0 = omega (
        arith,
        ap length h.are,
        length-append (bits_of r.n r.value) (byte_bits h.bytes),
        length-bits_of r.n r.value,
        length-byte_bits h.bytes,
      ) in
      let ends : (src.next r.source).0 ≡ none =
        rw (length_eq_zero h.bytes (omega (arith, sizes))) at h.delivers in
      let last : BitReader S = record r {
        source = (src.next r.source).1;
        err = some eof;
        value = r.value * 2 ^ 8 % 2 ^ 64;
      } in
      let filled : fill src 1 1 r ≡ last = rw (ltb-true r.n 1 (omega (arith, sizes))) (rw ends) in
      ap (λ t. t.1.err) (read_bits_good 1 r h.good) ∙ ap (λ t. (take_bits src 1 t).1.err) filled
