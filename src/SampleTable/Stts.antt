-- ===== src/SampleTable/Stts.antt =====
-- mp4/stts.go: the durations of the samples, in runs of equal ones.
pub mod RoundTrip
pub mod Lookup
pub mod AtTime
use mp4ff.Base.{
  ℕ, zero, suc, ◌+◌, ◌-◌, ◌*◌, ◌/◌, ◌%◌, ◌^◌, Bool, true, false, not, ◌&&◌, Option, none, some,
  List, [], ◌∷◌, Bytes, codes, length, map, ltb, leb, ◌==◌, if◌then◌else◌,
}
use mp4ff.Base.Action.{
  Result, ok, err, Action, ◌>>=◌, ◌>>◌, pure, fail, fail_if, repeat, size_mismatch, no_match, panic,
}
use mp4ff.Bits.Reader.{Reader, read_uint32}
use mp4ff.Bits.Writer.{Writer, write_uint32, writer_error, encode_with}
use mp4ff.Box.{BoxHeader, encode_header_sw, version_and_flags, version_of, flags_of}

pub record SttsBox : Type 0 where
  pub version : ℕ
  pub flags : ℕ
  pub sample_count : List ℕ
  pub sample_time_delta : List ℕ

unfoldable pub expected_stts_size : ℕ → ℕ
expected_stts_size entry_count = 8 + 8 + entry_count * 8

-- `b.SampleCount[i]` and `b.SampleTimeDelta[i]` of one round.
unfoldable pub read_stts_entry : Action Reader (ℕ × ℕ)
read_stts_entry = do count ← read_uint32; delta ← read_uint32; pure (count, delta)

unfoldable pub decode_stts_sr : BoxHeader → ℕ → Action Reader SttsBox
decode_stts_sr hdr start_pos = do
  word ← read_uint32
  entry_count ← read_uint32
  fail_if (not (hdr.size == expected_stts_size entry_count)) size_mismatch
  entries ← repeat entry_count read_stts_entry
  pure (record {
    version = version_of word;
    flags = flags_of word;
    sample_count = map (λ e. e.0) entries;
    sample_time_delta = map (λ e. e.1) entries;
  })

unfoldable pub stts_size : SttsBox → ℕ
stts_size b = expected_stts_size (length b.sample_count % 2 ^ 32)

-- The loop over `b.SampleCount`; an index past the end of `b.SampleTimeDelta` panics.
unfoldable pub write_stts_entries : List ℕ → List ℕ → Action Writer (Unit {0})
write_stts_entries [] deltas = pure tt
write_stts_entries (c ∷ cs) [] = write_uint32 c >> fail panic
write_stts_entries (c ∷ cs) (d ∷ ds) = write_uint32 c >> write_uint32 d >> write_stts_entries cs ds

unfoldable pub encode_stts_sw : SttsBox → Action Writer (Unit {0})
encode_stts_sw b = do
  encode_header_sw (codes "stts") (stts_size b)
  write_uint32 (version_and_flags b.version b.flags)
  write_uint32 (length b.sample_count % 2 ^ 32)
  write_stts_entries b.sample_count b.sample_time_delta
  writer_error

unfoldable pub encode_stts : SttsBox → Result Bytes
encode_stts b = encode_with (stts_size b) (encode_stts_sw b)

-- The loop of `GetDecodeTime`. `none` is Go's panic on an index out of range.
unfoldable pub decode_time_loop : ℕ → ℕ → List ℕ → List ℕ → Option (ℕ × ℕ)
decode_time_loop remaining time [] deltas = none
decode_time_loop remaining time (c ∷ cs) [] = none
decode_time_loop remaining time (c ∷ cs) (d ∷ ds) =
    let next = decode_time_loop (remaining - c) ((time + c * d % 2 ^ 64) % 2 ^ 64) cs ds in
    if leb c remaining
    then next
    else some (if ltb 0 remaining then (time + remaining * d % 2 ^ 64) % 2 ^ 64 else time, d)

-- The decode time and the duration of the one-based sample `sampleNr`, which panics at 0.
unfoldable pub get_decode_time : SttsBox → ℕ → Option (ℕ × ℕ)
get_decode_time b zero = none
get_decode_time b (suc n) = decode_time_loop n 0 b.sample_count b.sample_time_delta

-- The loop of `GetDur`; `dur` is what the last round left.
unfoldable pub dur_loop : ℕ → ℕ → List ℕ → List ℕ → Option ℕ
dur_loop n dur [] deltas = some dur
dur_loop n dur (c ∷ cs) [] = none
dur_loop n dur (c ∷ cs) (d ∷ ds) =
    let next = dur_loop (n - c) d cs ds in if leb c n then next else some d

unfoldable pub get_dur : SttsBox → ℕ → Option ℕ
get_dur b zero = none
get_dur b (suc n) = dur_loop n 0 b.sample_count b.sample_time_delta

-- What follows the loop of `GetSampleNrAtTime`: a final single sample of no duration.
abbrev pub final_sample : ℕ → ℕ → ℕ → Option ℕ → Option ℕ → Option (Result ℕ)
final_sample time acc_time acc_nr (some c) (some d) =
    some (if d == 0 && c == 1 && time == acc_time then ok acc_nr else err no_match)
final_sample time acc_time acc_nr _ _ = none

-- `last_c` and `last_d` are the entry before, which is the last one when the loop ends.
unfoldable pub at_time_loop : ℕ → ℕ → ℕ → Option ℕ → Option ℕ → List ℕ → List ℕ → Option (Result ℕ)
at_time_loop time acc_time acc_nr last_c last_d [] deltas =
    final_sample time acc_time acc_nr last_c last_d
at_time_loop time acc_time acc_nr last_c last_d (c ∷ cs) [] = none
at_time_loop time acc_time acc_nr last_c last_d (c ∷ cs) (d ∷ ds) =
    let next =
      at_time_loop time ((acc_time + d * c % 2 ^ 64) % 2 ^ 64) ((acc_nr + c) % 2 ^ 32) (some c)
        (some d) cs ds in
    let rel = time - acc_time in
    let nr = if rel % d == 0 then rel / d else rel / d + 1 in
    if ltb time ((acc_time + c * d % 2 ^ 64) % 2 ^ 64)
    then some (ok ((acc_nr + nr % 2 ^ 32 + 1) % 2 ^ 32))
    else next

unfoldable pub get_sample_nr_at_time : SttsBox → ℕ → Option (Result ℕ)
get_sample_nr_at_time b time = at_time_loop time 0 0 none none b.sample_count b.sample_time_delta
