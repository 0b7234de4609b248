-- ===== src/Bits/EbspReader/Trailing.antt =====
-- The end of a NAL unit, as `MoreRbspData` and `ReadRbspTrailingBits` look for it.
use mp4ff.Base.{
  ℕ, zero, suc, ◌<◌, ◌≡◌, refl, sym, ap, ◌∙◌, arith, Bool, Bool-cases, inl, inr, true, false, none,
  some, List, [], ◌∷◌, ◌++◌, length, length-append, ◌==◌, if◌then◌else◌, All,
}
use mp4ff.Base.Binary.{bits_of, length-bits_of}
use mp4ff.Base.Action.{eof, ok}
use mp4ff.Bits.BitReader.{read_bits, bits_left}
use mp4ff.Bits.BitReader.Holds.{Holds, read_bits-end}
use mp4ff.Bits.BitReader.Golomb.{bit_lem, bits_of-zero, length-le-bits_left}
use mp4ff.Bits.EbspReader.{
  EbspReader, ebsp_source, find_one, more_rbsp_data, read_rbsp_trailing_bits, rbsp_answer,
  trailing_answer,
}

find_one-end :
    (fuel : ℕ) (r : EbspReader)
    → (read_bits ebsp_source 1 r).1.err ≡ some eof
    → find_one (suc fuel) r ≡ (false, (read_bits ebsp_source 1 r).1)
unfolding find_one
find_one-end fuel r h =
    let b = (read_bits ebsp_source 1 r).0 in
    let t = (read_bits ebsp_source 1 r).1 in
    λ i. elim (h i) [ some e ↦ (false, t) | none ↦ if b == 1 then (true, t) else find_one fuel t ]

find_one-step :
    (fuel : ℕ) (r : EbspReader)
    → (read_bits ebsp_source 1 r).1.err ≡ none
    → find_one (suc fuel) r ≡ (
        if (read_bits ebsp_source 1 r).0 == 1
        then (true, (read_bits ebsp_source 1 r).1)
        else find_one fuel (read_bits ebsp_source 1 r).1)
unfolding find_one
find_one-step fuel r h =
    let b = (read_bits ebsp_source 1 r).0 in
    let t = (read_bits ebsp_source 1 r).1 in
    λ i. elim (h i) [ some e ↦ (false, t) | none ↦ if b == 1 then (true, t) else find_one fuel t ]

abbrev ZerosEnd : Bool × EbspReader → Type 0
ZerosEnd found = (found.0 ≡ false) × (found.1.err ≡ some eof)

-- Zeros up to the end hold no one.
find_one-zeros :
    (m fuel : ℕ) (r : EbspReader)
    → m < fuel
    → Holds ebsp_source r (bits_of m 0)
    → ZerosEnd (find_one fuel r)
find_one-zeros m zero r h s = absurd (omega arith)
find_one-zeros zero (suc fuel) r h s =
    let last = read_bits-end ebsp_source r (unfold bits_of in s) in
    rw (find_one-end fuel r last) (refl, last)
find_one-zeros (suc m) (suc fuel) r h s =
    let (e, s') = bit_lem ebsp_source 0 r (bits_of m 0) (omega arith) (rw (bits_of-zero m) at s) in
    rw (find_one-step fuel r s'.good)
      (rw e (find_one-zeros m fuel (read_bits ebsp_source 1 r).1 (omega arith) s'))

-- Before the one of the trailing bits, `ReadRbspTrailingBits` finds no fault, and puts back the
-- end of the file that it ran into.
pub read_rbsp_trailing_bits_lem :
    (m : ℕ) (r : EbspReader)
    → Holds ebsp_source r (1 ∷ bits_of m 0)
    → ((read_rbsp_trailing_bits r).0 ≡ none) × ((read_rbsp_trailing_bits r).1.err ≡ none)
unfolding read_rbsp_trailing_bits
read_rbsp_trailing_bits_lem m r s =
    let first = (read_bits ebsp_source 1 r).0 in
    let t = (read_bits ebsp_source 1 r).1 in
    let fuel : ℕ = suc (bits_left ebsp_source t) in
    let found = find_one fuel t in
    let (one, s') = bit_lem ebsp_source 1 r (bits_of m 0) (omega arith) s in
    let (no_one, ended) =
      find_one-zeros m fuel t
        (omega (arith, length-le-bits_left ebsp_source t (bits_of m 0) s', length-bits_of m 0))
        s' in
    let e : read_rbsp_trailing_bits r ≡ trailing_answer first t found = λ i. elim (s.good i) [
      | some e ↦ (none, r)
      | none ↦ elim (s'.good i) [ some e ↦ (none, t) | none ↦ trailing_answer first t found ]
    ] in
    rw e (rw one (rw no_one (refl, refl)))

abbrev IsBit : ℕ → Type 0
IsBit b = b < 2

-- A one among bits is found.
find_one-true :
    (xs rest : List ℕ) (fuel : ℕ) (r : EbspReader)
    → length xs < fuel
    → All IsBit xs
    → Holds ebsp_source r (xs ++ (1 ∷ rest))
    → (find_one fuel r).0 ≡ true
find_one-true xs rest zero r h a s = absurd (omega arith)
find_one-true [] rest (suc fuel) r h a s =
    let (e, s') = bit_lem ebsp_source 1 r rest (omega arith) s in
    rw (find_one-step fuel r s'.good) (rw e)
find_one-true (x ∷ xs) rest (suc fuel) r h a s =
    let (e, s') = bit_lem ebsp_source x r (xs ++ (1 ∷ rest)) a.0 s in
    let t = (read_bits ebsp_source 1 r).1 in
    rw (find_one-step fuel r s'.good) (
      rw e (elim (Bool-cases (x == 1)) [
        | inl one ↦ rw one
        | inr other ↦ rw other (find_one-true xs rest fuel t (omega arith) a.1 s')
      ]))

more_rbsp_data-step :
    (r : EbspReader) (b : ℕ) (more : Bool)
    → r.err ≡ none
    → (read_bits ebsp_source 1 r).1.err ≡ none
    → (read_bits ebsp_source 1 r).0 ≡ b
    → (let t = (read_bits ebsp_source 1 r).1 in
        (find_one (suc (bits_left ebsp_source t)) t).0 ≡ more)
    → more_rbsp_data r ≡ ok (if b == 1 then more else true, r)
unfolding more_rbsp_data
more_rbsp_data-step r b more h h' e e' =
    let t = (read_bits ebsp_source 1 r).1 in
    let whole : record r { err = none } ≡ r = λ i. record r { err = sym h i } in
    let answer : rbsp_answer r b more ≡ (if b == 1 then more else true, r) =
      elim (Bool-cases (b == 1)) [
        | inl one ↦ rw one (rw whole)
        | inr other ↦ rw other (rw whole)
      ] in
    (λ i. ok (elim (h' i) [ some x ↦ (false, t) | none ↦ rbsp_answer r (e i) (e' i) ]))
    ∙ ap (λ x. ok x) answer

always : (c : Bool) → (if c then true else true) ≡ true
always true = refl
always false = refl

-- Whether there is anything before the trailing bits.
abbrev pub nonempty : List ℕ → Bool
nonempty [] = false
nonempty (b ∷ bs) = true

-- `MoreRbspData` finds out whether a bit stands before the trailing bits, and leaves the reader as it
-- was.
pub more_rbsp_data_lem :
    (bits : List ℕ) (m : ℕ) (r : EbspReader)
    → All IsBit bits
    → Holds ebsp_source r (bits ++ (1 ∷ bits_of m 0))
    → more_rbsp_data r ≡ ok (nonempty bits, r)
more_rbsp_data_lem [] m r a s =
    let t = (read_bits ebsp_source 1 r).1 in
    let (one, s') = bit_lem ebsp_source 1 r (bits_of m 0) (omega arith) s in
    let enough : m < suc (bits_left ebsp_source t) =
      omega (arith, length-le-bits_left ebsp_source t (bits_of m 0) s', length-bits_of m 0) in
    more_rbsp_data-step r 1 false s.good s'.good one (find_one-zeros m _ t enough s').0
more_rbsp_data_lem (b ∷ bs) m r a s =
    let t = (read_bits ebsp_source 1 r).1 in
    let rest : List ℕ = bits_of m 0 in
    let (e, s') = bit_lem ebsp_source b r (bs ++ (1 ∷ rest)) a.0 s in
    let enough : length bs < suc (bits_left ebsp_source t) = omega (
      arith,
      length-le-bits_left ebsp_source t (bs ++ (1 ∷ rest)) s',
      length-append bs (1 ∷ rest),
    ) in
    let found = find_one-true bs rest _ t enough a.1 s' in
    more_rbsp_data-step r b true s.good s'.good e found ∙ ap (λ c. ok (c, r)) (always (b == 1))
