-- ===== src/Avc/Nalus/Panic.antt =====
-- A length field near 2^32 makes the position wrap around.
use mp4ff.Base.{
  ℕ, ◌+◌, ◌-◌, ◌%◌, ◌^◌, ◌<◌, ◌≤◌, ◌≡◌, arith, none, ◌++◌, Bytes, length, length-append,
  take-length_append, ltb-false, ltb-true,
}
use mp4ff.Base.Words.{be_bytes, length-be_bytes, be_value-be_bytes4, IsUint32}
use mp4ff.Avc.Nalus.{length_field, nalus_loop, get_nalus_from_sample}

-- A sample whose first length field is one of the four largest makes `GetNalusFromSample` panic, if
-- there is a byte behind the field: the end of the NAL unit wraps around to before its start, which
-- passes the test against the length of the sample. The sample has fewer than 2^32 bytes.
pub get_nalus_from_sample_wraps :
    (n : ℕ) (rest : Bytes)
    → 2 ^ 32 - 4 ≤ n
    → IsUint32 n
    → 0 < length rest
    → IsUint32 (4 + length rest)
    → get_nalus_from_sample (be_bytes 4 n ++ rest) ≡ none
unfolding get_nalus_from_sample nalus_loop
get_nalus_from_sample_wraps n rest lo hi some_byte small =
    let sample = be_bytes 4 n ++ rest in
    let size : length sample ≡ 4 + length rest =
      omega (arith, length-append (be_bytes 4 n) rest, length-be_bytes 4 n) in
    let front = rw (length-be_bytes 4 n) at (take-length_append (be_bytes 4 n) rest) in
    let field : length_field sample 0 ≡ n = rw front (be_value-be_bytes4 n hi) in
    let long = ltb-false (length sample) 4 (omega arith) in
    let more = ltb-true 0 ((length sample - 4) % 2 ^ 32) (omega arith) in
    let stop : (4 + n) % 2 ^ 32 ≡ n + 4 - 2 ^ 32 = omega arith in
    let within = ltb-false (length sample) (n + 4 - 2 ^ 32) (omega arith) in
    let back = ltb-true (n + 4 - 2 ^ 32) 4 (omega arith) in
    rw (long, more, field, stop, within, back)
