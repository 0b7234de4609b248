-- ===== src/Avc/AnnexB/Convert.antt =====
-- A sample of NAL units is turned into the byte stream of the same NAL units.
use mp4ff.Base.{
  ℕ, zero, suc, ◌+◌, ◌%◌, ◌^◌, ◌<◌, ◌≡◌, ap, sym, ◌∙◌, arith, [], ◌∷◌, ◌++◌, List, Bytes, length,
  drop, length-append, append_assoc, take-length_append, drop-length_append, flat, ltb-true,
  ltb-false, leb-true,
}
use mp4ff.Base.Words.{be_bytes, length-be_bytes, IsUint32}
use mp4ff.Base.Action.{ok}
use mp4ff.Avc.Nalus.RoundTrip.{with_length, sample_of, length_field_lem, length-with_length}
use mp4ff.Avc.AnnexB.{start_code, with_start_code_at, to_stream_loop, convert_sample_to_byte_stream}

abbrev pub with_start_code : Bytes → Bytes
with_start_code nalu = start_code ++ nalu

abbrev pub stream_of : List Bytes → Bytes
stream_of nalus = flat with_start_code nalus

-- A start code replaces a length field.
with_start_code_at-field :
    (done nalu rest : Bytes)
    → with_start_code_at (done ++ (with_length nalu ++ rest)) (length done)
      ≡ (done ++ with_start_code nalu) ++ rest
unfolding with_start_code_at
with_start_code_at-field done nalu rest =
    let field = be_bytes 4 (length nalu) in
    let regroup : done ++ (with_length nalu ++ rest) ≡ (done ++ field) ++ (nalu ++ rest) =
      ap (◌++◌ done) (append_assoc field nalu rest)
      ∙ sym (append_assoc done field (nalu ++ rest)) in
    let size : length (done ++ field) ≡ length done + 4 =
      omega (arith, length-append done field, length-be_bytes 4 (length nalu)) in
    let behind : drop (length done + 4) (done ++ (with_length nalu ++ rest)) ≡ nalu ++ rest =
      ap (drop (length done + 4)) regroup
      ∙ rw size at (drop-length_append (done ++ field) (nalu ++ rest)) in
    rw (take-length_append done (with_length nalu ++ rest), behind)
      (append_assoc done start_code (nalu ++ rest)
        ∙ sym (append_assoc done (with_start_code nalu) rest))

to_stream_loop_lem :
    (fuel : ℕ) (done : Bytes) (nalus : List Bytes)
    → length (sample_of nalus) < fuel
    → IsUint32 (length (done ++ sample_of nalus))
    → to_stream_loop fuel (done ++ sample_of nalus) (length done) ≡ ok (done ++ stream_of nalus)
unfolding to_stream_loop
to_stream_loop_lem zero done nalus f h = absurd (omega arith)
to_stream_loop_lem (suc fuel) done [] f h =
    let over =
      ltb-false (length done) (length (done ++ []) % 2 ^ 32)
        (omega (arith, length-append done [])) in
    rw over
to_stream_loop_lem (suc fuel) done (n ∷ ns) f h =
    let rest = sample_of ns in
    let total = length-append done (with_length n ++ rest) in
    let inner = length-append (with_length n) rest in
    let own = length-with_length n in
    let sample = done ++ (with_length n ++ rest) in
    let more = ltb-true (length done) (length sample % 2 ^ 32) (omega arith) in
    let field = length_field_lem done n rest (omega arith) in
    let stop : (length done + 4) % 2 ^ 32 ≡ length done + 4 = omega arith in
    let ascending = leb-true (length done) (length done + 4) (omega arith) in
    let inside = leb-true (length done + 4) (length sample) (omega arith) in
    let front = done ++ with_start_code n in
    let size = length-append done (with_start_code n) in
    let next : (length done + length n + 4) % 2 ^ 32 ≡ length front = omega arith in
    let rec =
      to_stream_loop_lem fuel front ns (omega arith) (omega (arith, length-append front rest)) in
    rw (more, stop, ascending, inside, field, with_start_code_at-field done n rest, next)
      (rec ∙ ap ok (append_assoc done (with_start_code n) (stream_of ns)))

-- A sample of NAL units behind their lengths becomes the byte stream of the same NAL units, each behind
-- a start code of 4 bytes, if it has fewer than 2^32 bytes.
pub convert_sample_to_byte_stream_lem :
    (nalus : List Bytes)
    → IsUint32 (length (sample_of nalus))
    → convert_sample_to_byte_stream (sample_of nalus) ≡ ok (stream_of nalus)
unfolding convert_sample_to_byte_stream
convert_sample_to_byte_stream_lem nalus h =
    to_stream_loop_lem (suc (length (sample_of nalus))) [] nalus (omega arith) h
