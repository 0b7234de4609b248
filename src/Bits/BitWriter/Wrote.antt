-- ===== src/Bits/BitWriter/Wrote.antt =====
-- What bits a writer has written, where the sink takes every byte.
use Prim.Native.Nat.{bit_or}
use native.Mathlib.Nat.{pow-le-pow_right, mul-le-mul}
use mp4ff.Base.{
  ℕ, zero, suc, ◌+◌, ◌-◌, ◌*◌, ◌/◌, ◌%◌, ◌^◌, ◌≤◌, ◌<◌, ◌≡◌, refl, sym, ap, ◌∙◌, arith, true, none,
  some, List, [], ◌∷◌, ◌++◌, append_assoc, Bytes, ltb, Bool-cases, inl, inr, All, flat, IsByte,
}
use mp4ff.Base.Binary.{
  bits_of, bits_of-append, bits_of-split, bits_of-mod, bits_of-mod_le, bit_or-add, pow_pos,
}
use mp4ff.Bits.BitWriter.{Sink, BitWriter, write_whole, mask_value, write}

module _ {ℓ} {K : Type ℓ} (out : Sink K) where
  -- The bytes put into the sink one after the other.
  abbrev pub puts : K → Bytes → K
  puts k [] = k
  puts k (b ∷ bs) = puts (out.put b k).1 bs

  pub puts-append : (k : K) (xs ys : Bytes) → puts k (xs ++ ys) ≡ puts (puts k xs) ys
  puts-append k [] ys = refl
  puts-append k (x ∷ xs) ys = puts-append (out.put x k).1 xs ys

  -- From a new writer on `k`, `bits` were written: whole bytes to the sink, the others are in the
  -- writer.
  pub record Wrote (k : K) (w : BitWriter K) (bits : List ℕ) : Type ℓ where
    pub good : w.err ≡ none
    pub bytes : Bytes
    pub are_bytes : All IsByte bytes
    pub sent : w.sink ≡ puts k bytes
    pub are : flat (bits_of 8) bytes ++ bits_of w.n w.v ≡ bits

  flat-append :
      (xs ys : Bytes) → flat (bits_of 8) (xs ++ ys) ≡ flat (bits_of 8) xs ++ flat (bits_of 8) ys
  flat-append [] ys = refl
  flat-append (x ∷ xs) ys =
      ap (λ bs. bits_of 8 x ++ bs) (flat-append xs ys)
      ∙ sym (append_assoc (bits_of 8 x) (flat (bits_of 8) xs) (flat (bits_of 8) ys))

  pub flat_snoc :
      (xs : Bytes) (b : ℕ) (bits : List ℕ)
      → flat (bits_of 8) (xs ++ (b ∷ [])) ++ bits ≡ flat (bits_of 8) xs ++ (bits_of 8 b ++ bits)
  flat_snoc xs b bits = simp (flat-append xs (b ∷ []), append_assoc)

  pub All-snoc : (bs : Bytes) (b : ℕ) → All IsByte bs → IsByte b → All IsByte (bs ++ (b ∷ []))
  All-snoc [] b a h = (h, tt)
  All-snoc (x ∷ xs) b a h = (a.0, All-snoc xs b a.1 h)

  module _ (never_fails : (b : ℕ) (k : K) → (out.put b k).0 ≡ true) (k : K) where
    -- The byte that a round writes is the first of the bits in the writer.
    first_byte :
        (n v : ℕ) → 8 ≤ n → bits_of 8 (v / 2 ^ (n - 8) % 2 ^ 8) ++ bits_of (n - 8) v ≡ bits_of n v
    first_byte n v h =
        let e : 8 + (n - 8) ≡ n = omega arith in
        rw (← bits_of-mod (n - 8) v, bits_of-mod 8 (v / 2 ^ (n - 8)))
          (sym (rw e at (bits_of-split 8 (n - 8) v)))

    write_whole_lem :
        (fuel : ℕ) (w : BitWriter K) (bits : List ℕ)
        → w.n ≤ fuel
        → Wrote k w bits
        → Wrote k (write_whole out fuel w) bits × ((write_whole out fuel w).n < 8)
    unfolding write_whole
    write_whole_lem zero w bits h s = (s, omega arith)
    write_whole_lem (suc fuel) w bits h s = elim (Bool-cases (ltb w.n 8)) [
      | inl few ↦ rw few (s, ground arith)
      | inr many ↦
          let le : 8 ≤ w.n = ground arith in
          let b : ℕ = w.v / 2 ^ (w.n - 8) % 2 ^ 8 in
          rw (many, never_fails b w.sink)
            (write_whole_lem fuel (record w { sink = (out.put b w.sink).1; n = w.n - 8 }) bits
              (omega arith)
              (record {
                good = s.good;
                bytes = s.bytes ++ (b ∷ []);
                are_bytes = All-snoc s.bytes b s.are_bytes (omega arith);
                sent = ap (λ c. (out.put b c).1) s.sent ∙ sym (puts-append k s.bytes (b ∷ []));
                are =
                    flat_snoc s.bytes b (bits_of (w.n - 8) w.v)
                    ∙ ap (λ bs. flat (bits_of 8) s.bytes ++ bs) (first_byte w.n w.v le)
                    ∙ s.are;
              }))
    ]

    mask_value_lem :
        (w : BitWriter K) (bits : List ℕ)
        → w.n < 8
        → Wrote k w bits
        → Wrote k (mask_value out w) bits
          × ((mask_value out w).n < 8)
          × ((mask_value out w).v < 2 ^ 8)
    unfolding mask_value
    mask_value_lem w bits h s =
        let masked : BitWriter K = record w { v = w.v % 2 ^ 8 } in
        let e : mask_value out w ≡ masked = λ i. elim (s.good i) [ some e ↦ w | none ↦ masked ] in
        rw e (
          record {
            good = s.good;
            bytes = s.bytes;
            are_bytes = s.are_bytes;
            sent = s.sent;
            are =
                ap (λ bs. flat (bits_of 8) s.bytes ++ bs) (bits_of-mod_le w.n 8 w.v (omega arith))
                ∙ s.are;
          },
          h,
          omega arith,
        )

    -- `Write` of at most 56 bits, to a writer as `Write` leaves it, writes these bits in their order
    -- behind those that were written before.
    pub write_lem :
        (v n : ℕ) (w : BitWriter K) (bits : List ℕ)
        → w.n < 8
        → w.v < 2 ^ 8
        → n ≤ 56
        → Wrote k w bits
        → Wrote k (write out v n w) (bits ++ bits_of n v)
          × ((write out v n w).n < 8)
          × ((write out v n w).v < 2 ^ 8)
    unfolding write
    write_lem v n w bits few small le s =
        let low : v % 2 ^ n < 2 ^ n = grind (arith, pow_pos n) in
        let wide : 2 ^ n ≤ 2 ^ 56 = pow-le-pow_right (omega arith) le in
        let fits : w.v * 2 ^ n % 2 ^ 64 ≡ w.v * 2 ^ n =
          let byte : w.v ≤ 255 = omega arith in omega (arith, mul-le-mul byte wide) in
        let joined : bit_or (w.v * 2 ^ n % 2 ^ 64) (v % 2 ^ n) ≡ w.v * 2 ^ n + v % 2 ^ n =
          rw fits (bit_or-add n w.v (v % 2 ^ n) low) in
        let longer : BitWriter K = record w {
          v = bit_or (w.v * 2 ^ n % 2 ^ 64) (v % 2 ^ n);
          n = w.n + n;
        } in
        let done : BitWriter K = mask_value out (write_whole out (w.n + n) longer) in
        let e : write out v n w ≡ done = λ i. elim (s.good i) [ some e ↦ w | none ↦ done ] in
        let more : bits_of (w.n + n) longer.v ≡ bits_of w.n w.v ++ bits_of n v =
          ap (bits_of (w.n + n)) joined
          ∙ bits_of-append w.n n w.v (v % 2 ^ n) low
          ∙ ap (λ bs. bits_of w.n w.v ++ bs) (bits_of-mod n v) in
        let before : Wrote k longer (bits ++ bits_of n v) = record {
          good = s.good;
          bytes = s.bytes;
          are_bytes = s.are_bytes;
          sent = s.sent;
          are =
              ap (λ bs. flat (bits_of 8) s.bytes ++ bs) more
              ∙ sym (append_assoc (flat (bits_of 8) s.bytes) (bits_of w.n w.v) (bits_of n v))
              ∙ ap (λ bs. bs ++ bits_of n v) s.are;
        } in
        let (after, few') = write_whole_lem (w.n + n) longer _ (omega arith) before in
        rw e (mask_value_lem (write_whole out (w.n + n) longer) _ few' after)
