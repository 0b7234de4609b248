-- ===== src/Crypto/Samples/Cover.antt =====
-- The loop over the NAL units of a sample in mp4/crypto.go protects of every NAL unit what its codec
-- and scheme say.
use mp4ff.Base.{
  ℕ, zero, suc, ◌+◌, ◌-◌, ◌%◌, ◌^◌, ◌<◌, ◌≤◌, ◌≡◌, refl, ap, ◌∙◌, arith, Bool, false, [], ◌∷◌, ◌++◌,
  List, Bytes, length, ltb, ltb-true, ltb-false, flat, All, append_assoc, append-nil, length-append,
}
use mp4ff.Base.Words.{IsUint16, IsUint32}
use mp4ff.Base.Action.{ok}
use mp4ff.Avc.Nalus.RoundTrip.{with_length, sample_of, length-with_length, length_field_lem}
use mp4ff.Crypto.{SubSamplePattern}
use mp4ff.Crypto.Ranges.{marks}
use mp4ff.Crypto.Samples.{
  NaluSyntax, Scheme, Ranges, add_range, ranges_loop, add_clear_rest, get_protect_ranges,
}
use mp4ff.Crypto.Samples.Marks.{IsAt, add_range-IsAt, add_clear_rest-IsAt}
use mp4ff.Crypto.Samples.Cut.{
  CutsVideo, protected_end, nalu_marks, nalu_range_behind, protected_end-within,
}

marks_nil : marks [] ++ [] ≡ []
unfolding marks
marks_nil = refl

module _ (syn : NaluSyntax) (scheme : Scheme) (protected : Bytes → ℕ) where
  -- A round of the loop.
  ranges_round :
      (fuel : ℕ) (done n rest : Bytes) (r : Ranges)
      → CutsVideo syn scheme protected n
      → 0 < length n
      → IsUint32 (length (done ++ (with_length n ++ rest)))
      → ranges_loop (suc fuel) syn scheme (done ++ (with_length n ++ rest)) (length done) r
        ≡ ranges_loop fuel syn scheme
            (done ++ (with_length n ++ rest))
            (length done + 4 + length n)
            (add_range r
              (length done + 4 + (length n - protected_end syn protected n))
              (protected_end syn protected n))
  unfolding ranges_loop
  ranges_round fuel done n rest r c p h =
      let sample = done ++ (with_length n ++ rest) in
      let total = length-append done (with_length n ++ rest) in
      let inner = length-append (with_length n) rest in
      let own = length-with_length n in
      let more = ltb-true (length done) ((length sample - 4) % 2 ^ 32) (omega arith) in
      let field = length_field_lem done n rest (omega arith) in
      let start : (length done + 4) % 2 ^ 32 ≡ length done + 4 = omega arith in
      let stop : (length done + 4 + length n) % 2 ^ 32 ≡ length done + 4 + length n = omega arith in
      let inside = ltb-false (length sample) (length done + 4 + length n) (omega arith) in
      rw (
        more,
        field,
        start,
        stop,
        inside,
        nalu_range_behind syn scheme protected done n rest c p (omega arith),
        field,
        start,
        stop,
      )

  -- The rest of the loop after a round.
  ranges_rest :
      (fuel : ℕ) (done n rest : Bytes) (r r' : Ranges) (k p : ℕ) (ms ms' : List Bool)
      → CutsVideo syn scheme protected n
      → k ≡ 4 + (length n - p)
      → p ≡ protected_end syn protected n
      → 0 < length n
      → IsUint32 (length (done ++ (with_length n ++ rest)))
      → ranges_loop fuel syn scheme
          ((done ++ with_length n) ++ rest)
          (length (done ++ with_length n))
          (add_range r (length done + k) p)
        ≡ ok r'
      → IsAt
          (length ((done ++ with_length n) ++ rest))
          ((ms ++ nalu_marks syn protected n) ++ ms')
          r'
      → (ranges_loop (suc fuel) syn scheme (done ++ (with_length n ++ rest)) (length done) r
          ≡ ok r')
        × IsAt
            (length (done ++ (with_length n ++ rest)))
            (ms ++ (nalu_marks syn protected n ++ ms'))
            r'
  ranges_rest fuel done n rest r r' k p ms ms' c hk hp pos h loop at =
      let same = append_assoc done (with_length n) rest in
      let next : length done + 4 + length n ≡ length (done ++ with_length n) =
        omega (arith, length-append done (with_length n), length-with_length n) in
      let clear_end : length done + 4 + (length n - p) ≡ length done + k = omega arith in
      (
        ranges_round fuel done n rest r c pos h ∙ rw (next, ← hp, clear_end) (rw same at loop),
        rw (same, append_assoc ms (nalu_marks syn protected n) ms') at at,
      )

  ranges_loop-IsAt :
      (fuel : ℕ) (done : Bytes) (nalus : List Bytes) (ms : List Bool) (r : Ranges)
      → All (CutsVideo syn scheme protected) nalus
      → length (sample_of nalus) < fuel
      → IsUint32 (length (done ++ sample_of nalus))
      → 4 ≤ length (done ++ sample_of nalus)
      → All (λ n. 0 < length n) nalus
      → IsAt (length done) ms r
      → (r' : Ranges) × (ranges_loop fuel syn scheme (done ++ sample_of nalus) (length done) r
          ≡ ok r')
        × IsAt (length (done ++ sample_of nalus)) (ms ++ flat (nalu_marks syn protected) nalus) r'
  unfolding ranges_loop
  ranges_loop-IsAt zero done nalus ms r c f h l e at = absurd (omega arith)
  ranges_loop-IsAt (suc fuel) done [] ms r c f h l e at =
      let n = length-append done [] in
      let over : ltb (length done) ((length (done ++ []) - 4) % 2 ^ 32) ≡ false =
        ltb-false (length done) ((length (done ++ []) - 4) % 2 ^ 32) (omega arith) in
      (r, rw over, rw (append-nil, append-nil) at)
  ranges_loop-IsAt (suc fuel) done (n ∷ ns) ms r c f h l e at =
      let rest = sample_of ns in
      let p = protected_end syn protected n in
      let within = protected_end-within syn scheme protected n c.0 in
      let own = length-with_length n in
      let total = length-append done (with_length n ++ rest) in
      let inner = length-append (with_length n) rest in
      let next : length done + 4 + length n ≡ length (done ++ with_length n) =
        omega (arith, length-append done (with_length n)) in
      let same = append_assoc done (with_length n) rest in
      let fits : IsUint32 (length ((done ++ with_length n) ++ rest)) =
        omega (arith, ap length same) in
      let long : 4 ≤ length ((done ++ with_length n) ++ rest) = omega (arith, ap length same) in
      let k = 4 + (length n - p) in
      let stop : length done + k + p ≡ length (done ++ with_length n) = omega arith in
      let range = add_range-IsAt (length done) k p ms r at (omega arith) in
      let (r', loop, at') =
        ranges_loop-IsAt fuel (done ++ with_length n) ns (ms ++ nalu_marks syn protected n)
          (add_range r (length done + k) p) c.1 (omega arith) fits long e.1 (rw stop at range) in
      let (loop'', at'') =
        ranges_rest fuel done n rest r r' k p ms (flat (nalu_marks syn protected) ns) c.0 refl refl
          e.0 h loop at' in
      (r', loop'', at'')

  pub get_protect_ranges-marks :
      (n : Bytes) (ns : List Bytes)
      → All (CutsVideo syn scheme protected) (n ∷ ns)
      → All (λ nalu. 0 < length nalu) (n ∷ ns)
      → IsUint32 (length (sample_of (n ∷ ns)))
      → (ssps : List SubSamplePattern) × (get_protect_ranges syn (sample_of (n ∷ ns)) scheme
          ≡ ok ssps)
        × (marks ssps ≡ flat (nalu_marks syn protected) (n ∷ ns))
        × All (λ ss. IsUint16 ss.bytes_of_clear_data) ssps
  unfolding get_protect_ranges
  get_protect_ranges-marks n ns c filled h =
      let sample = sample_of (n ∷ ns) in
      let size = length-append (with_length n) (sample_of ns) in
      let own = length-with_length n in
      let enough = ltb-false (length sample) 4 (omega arith) in
      let start : IsAt 0 [] (record { ssps = []; clear_start = 0; clear_end = 0 }) = record {
        starts = omega arith;
        ends = refl;
        same = marks_nil;
        small = tt;
        whole = refl;
      } in
      let (r, loop, at) =
        ranges_loop-IsAt (suc (length sample)) [] (n ∷ ns) [] _ c (omega arith) h (omega arith)
          filled start in
      let (e, small) = add_clear_rest-IsAt _ r (length sample) at (omega arith) in
      (add_clear_rest (length sample) r, rw (enough, loop), e, small)
