-- ===== src/Avc/AnnexB.antt =====
-- avc/annexb.go: byte streams, whose NAL units stand behind start codes.
pub mod Convert
pub mod Extract
use mp4ff.Base.{
  ℕ, zero, suc, ◌+◌, ◌-◌, ◌%◌, ◌^◌, ◌&&◌, [], ◌∷◌, ◌++◌, List, Bytes, length, take, drop, get_or,
  ltb, leb, ◌==◌, Bool, if◌then◌else◌, Option, none, some,
}
use mp4ff.Base.Action.{Result, ok, err, panic, out_of_fuel}
use mp4ff.Avc.Nalus.{length_field}

abbrev pub start_code : Bytes
start_code = 0 ∷ 0 ∷ 0 ∷ 1 ∷ []

-- `copy(sample[pos:pos+4], startCode)`
unfoldable pub with_start_code_at : Bytes → ℕ → Bytes
with_start_code_at sample pos = take pos sample ++ start_code ++ drop (pos + 4) sample

-- The slice `sample[pos : pos+4]` panics if it is not within the sample.
unfoldable pub to_stream_loop : ℕ → Bytes → ℕ → Result Bytes
to_stream_loop zero sample pos = err out_of_fuel
to_stream_loop (suc fuel) sample pos =
    let nalu_length = length_field sample pos in
    let rest =
      to_stream_loop fuel (with_start_code_at sample pos) ((pos + nalu_length + 4) % 2 ^ 32) in
    let stop = (pos + 4) % 2 ^ 32 in
    if ltb pos (length sample % 2 ^ 32)
    then (if leb pos stop && leb stop (length sample) then rest else err panic)
    else ok sample

unfoldable pub convert_sample_to_byte_stream : Bytes → Result Bytes
convert_sample_to_byte_stream sample = to_stream_loop (suc (length sample)) sample 0

abbrev pub byte_at : Bytes → ℕ → ℕ
byte_at stream i = get_or stream i 256

abbrev pub is_start_code : Bytes → ℕ → Bool
is_start_code stream i =
    byte_at stream i == 0 && byte_at stream (i + 1) == 0 && byte_at stream (i + 2) == 1

-- `for j := i - 1; j > currNaluStart; j--`, where `steps` is `i - 1 - currNaluStart`: the end of the NAL
-- unit without the zeros in front of a start code.
unfoldable pub trim : ℕ → Bytes → ℕ → ℕ → ℕ
trim zero stream curr_nalu_start curr_nalu_end = curr_nalu_end
trim (suc steps) stream curr_nalu_start curr_nalu_end =
    let j = curr_nalu_start + suc steps in
    let rest = trim steps stream curr_nalu_start j in
    if byte_at stream j == 0 then rest else curr_nalu_end

abbrev pub extract_slice : Bytes → ℕ → ℕ → Bytes
extract_slice stream start stop = take (stop - start) (drop start stream)

-- `for i := 0; i < n-3; i++` with the rounds left; the start of a NAL unit is `none` for -1.
unfoldable pub extract_loop : ℕ → Bytes → ℕ → Option ℕ → List Bytes
extract_loop zero stream i none = []
extract_loop zero stream i (some start) = extract_slice stream start (length stream) ∷ []
extract_loop (suc rounds) stream i none =
    let found = extract_loop rounds stream (i + 1) (some (i + 3)) in
    let rest = extract_loop rounds stream (i + 1) none in
    if is_start_code stream i then found else rest
extract_loop (suc rounds) stream i (some start) =
    let found = extract_loop rounds stream (i + 1) (some (i + 3)) in
    let rest = extract_loop rounds stream (i + 1) (some start) in
    if is_start_code stream i
    then extract_slice stream start (trim (i - 1 - start) stream start i) ∷ found
    else rest

unfoldable pub extract_nalus_from_byte_stream : Bytes → List Bytes
extract_nalus_from_byte_stream stream = extract_loop (length stream - 3) stream 0 none
