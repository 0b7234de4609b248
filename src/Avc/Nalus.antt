-- ===== src/Avc/Nalus.antt =====
-- avc/nalus.go: a sample as NAL units behind 4-byte length fields. Positions are uint32, and `none` is the panic on a slice out of bounds.
pub mod RoundTrip
pub mod Fuel
pub mod Sound
pub mod Panic
use mp4ff.Base.{
  ℕ, zero, suc, ◌+◌, ◌-◌, ◌%◌, ◌^◌, not, Option, none, some, List, [], ◌∷◌, ◌++◌, Bytes, length,
  take, drop, ltb, if◌then◌else◌,
}
use mp4ff.Base.Words.{be_value}
use mp4ff.Base.Action.{Result, ok, err, nalu_length, out_of_fuel, header_too_short}

abbrev pub prepend : Bytes → Option (Result (List Bytes)) → Option (Result (List Bytes))
prepend nalu none = none
prepend nalu (some (err e)) = some (err e)
prepend nalu (some (ok nalus)) = some (ok (nalu ∷ nalus))

-- `binary.BigEndian.Uint32(sample[pos : pos+4])`
abbrev pub length_field : Bytes → ℕ → ℕ
length_field sample pos = be_value 0 (take 4 (drop pos sample))

-- The loop, with fuel.
unfoldable pub nalus_loop : ℕ → Bytes → ℕ → Option (Result (List Bytes))
nalus_loop zero sample pos = some (err out_of_fuel)
nalus_loop (suc fuel) sample pos =
    let n = length_field sample pos in
    let start = (pos + 4) % 2 ^ 32 in
    let stop = (start + n) % 2 ^ 32 in
    let rest = nalus_loop fuel sample stop in
    if not (ltb pos ((length sample - 4) % 2 ^ 32))
    then some (ok [])
    else if ltb (length sample) stop
    then some (err nalu_length)
    else if ltb stop start
    then none
    else prepend (take (stop - start) (drop start sample)) rest

-- Every round moves on by 4 bytes at least.
unfoldable pub get_nalus_from_sample : Bytes → Option (Result (List Bytes))
get_nalus_from_sample sample =
    if ltb (length sample) 4
    then some (err header_too_short)
    else nalus_loop (suc (length sample)) sample 0
