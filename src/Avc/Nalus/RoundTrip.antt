-- ===== src/Avc/Nalus/RoundTrip.antt =====
-- NAL units that are put into a sample come out of it.
use mp4ff.Base.{
  ℕ, zero, suc, ◌+◌, ◌-◌, ◌%◌, ◌^◌, ◌<◌, ◌≤◌, ◌≡◌, refl, ap, ◌∙◌, arith, true, false, some, List,
  [], ◌∷◌, ◌++◌, append_assoc, Bytes, length, length-append, take, drop, take-length_append,
  drop-length_append, flat, ltb, ltb-false, ltb-true,
}
use mp4ff.Base.Words.{be_bytes, length-be_bytes, be_value-be_bytes4, IsUint32}
use mp4ff.Base.Action.{ok}
use mp4ff.Avc.Nalus.{length_field, nalus_loop, get_nalus_from_sample}

-- A NAL unit behind its length.
abbrev pub with_length : Bytes → Bytes
with_length nalu = be_bytes 4 (length nalu) ++ nalu

abbrev pub sample_of : List Bytes → Bytes
sample_of nalus = flat with_length nalus

-- The last NAL unit has a byte.
abbrev pub EndsFilled : List Bytes → Type 0
EndsFilled [] = Unit
EndsFilled (n ∷ []) = 0 < length n
EndsFilled (n ∷ n' ∷ ns) = EndsFilled (n' ∷ ns)

pub length-with_length : (n : Bytes) → length (with_length n) ≡ 4 + length n
length-with_length n =
    omega (arith, length-append (be_bytes 4 (length n)) n, length-be_bytes 4 (length n))

pub filled_end :
    (n : Bytes) (ns : List Bytes) → EndsFilled (n ∷ ns) → 4 < length (sample_of (n ∷ ns))
filled_end n [] h = omega (arith, length-append (with_length n) [], length-with_length n)
filled_end n (n' ∷ ns) h =
    omega (arith, filled_end n' ns h, length-append (with_length n) (sample_of (n' ∷ ns)))

pub filled_tail : (n : Bytes) (ns : List Bytes) → EndsFilled (n ∷ ns) → EndsFilled ns
filled_tail n [] h = tt
filled_tail n (n' ∷ ns) h = h

-- The bytes at a position behind others.
front :
    (done bs rest : Bytes) (k : ℕ)
    → k ≡ length done
    → take (length bs) (drop k (done ++ (bs ++ rest))) ≡ bs
front done bs rest k e =
    rw e (ap (take (length bs)) (drop-length_append done (bs ++ rest)) ∙ take-length_append bs rest)

module _ (done nalu rest : Bytes) where
  pub length_field_lem :
      IsUint32 (length nalu)
      → length_field (done ++ (with_length nalu ++ rest)) (length done) ≡ length nalu
  length_field_lem h =
      let f = front done (be_bytes 4 (length nalu)) (nalu ++ rest) (length done) refl in
      let f' = rw (length-be_bytes 4 (length nalu)) at f in
      rw (append_assoc (be_bytes 4 (length nalu)) nalu rest, f')
        (be_value-be_bytes4 (length nalu) h)

  pub nalu_lem :
      take (length nalu) (drop (length done + 4) (done ++ (with_length nalu ++ rest))) ≡ nalu
  nalu_lem =
      let bytes = be_bytes 4 (length nalu) in
      let k : length done + 4 ≡ length (done ++ bytes) =
        omega (arith, length-append done bytes, length-be_bytes 4 (length nalu)) in
      rw (append_assoc bytes nalu rest, ← append_assoc done bytes (nalu ++ rest))
        (front (done ++ bytes) nalu rest (length done + 4) k)

nalus_loop_lem :
    (fuel : ℕ) (done : Bytes) (nalus : List Bytes)
    → length (sample_of nalus) < fuel
    → IsUint32 (length (done ++ sample_of nalus))
    → 4 ≤ length (done ++ sample_of nalus)
    → EndsFilled nalus
    → nalus_loop fuel (done ++ sample_of nalus) (length done) ≡ some (ok nalus)
unfolding nalus_loop
nalus_loop_lem zero done nalus f h l e = absurd (omega arith)
nalus_loop_lem (suc fuel) done [] f h l e =
    let n = length-append done [] in
    let over : ltb (length done) ((length (done ++ []) - 4) % 2 ^ 32) ≡ false =
      ltb-false (length done) ((length (done ++ []) - 4) % 2 ^ 32) (omega arith) in
    rw over
nalus_loop_lem (suc fuel) done (n ∷ ns) f h l e =
    let rest = sample_of ns in
    let total = length-append done (with_length n ++ rest) in
    let inner = length-append (with_length n) rest in
    let own = length-with_length n in
    let more : ltb (length done) ((length (done ++ (with_length n ++ rest)) - 4) % 2 ^ 32) ≡ true =
      ltb-true (length done) ((length (done ++ (with_length n ++ rest)) - 4) % 2 ^ 32)
        (omega (arith, filled_end n ns e)) in
    let field = length_field_lem done n rest (omega arith) in
    let start : (length done + 4) % 2 ^ 32 ≡ length done + 4 = omega arith in
    let stop : (length done + 4 + length n) % 2 ^ 32 ≡ length done + 4 + length n = omega arith in
    let inside =
      ltb-false (length (done ++ (with_length n ++ rest))) (length done + 4 + length n)
        (omega arith) in
    let ascending = ltb-false (length done + 4 + length n) (length done + 4) (omega arith) in
    let size : length done + 4 + length n - (length done + 4) ≡ length n = omega arith in
    let next : length done + 4 + length n ≡ length (done ++ with_length n) =
      omega (arith, length-append done (with_length n)) in
    let same = append_assoc done (with_length n) rest in
    let fits : IsUint32 (length ((done ++ with_length n) ++ rest)) =
      omega (arith, ap length same) in
    let long : 4 ≤ length ((done ++ with_length n) ++ rest) = omega (arith, ap length same) in
    rw (more, field, start, stop, inside, ascending, size, nalu_lem done n rest)
      (rw (
        next,
        ← append_assoc done (with_length n) rest,
        nalus_loop_lem fuel (done ++ with_length n) ns (omega arith) fits long (filled_tail n ns e),
      ))

-- `GetNalusFromSample` gives back the NAL units of a sample that has at least one, each behind its
-- length in 4 bytes, in order. The sample has fewer than 2^32 bytes, and the last NAL unit is not
-- empty, since an empty one at the end is passed over.
pub get_nalus_from_sample_round_trip :
    (n : Bytes) (ns : List Bytes)
    → EndsFilled (n ∷ ns)
    → IsUint32 (length (sample_of (n ∷ ns)))
    → get_nalus_from_sample (sample_of (n ∷ ns)) ≡ some (ok (n ∷ ns))
unfolding get_nalus_from_sample
get_nalus_from_sample_round_trip n ns e h =
    let filled = filled_end n ns e in
    let enough = ltb-false (length (sample_of (n ∷ ns))) 4 (omega arith) in
    rw enough (
      nalus_loop_lem (suc (length (sample_of (n ∷ ns)))) [] (n ∷ ns) (omega arith) h (omega arith)
        e)
