-- ===== src/Tests/Flags.antt =====
-- Sample flags at concrete values.
use mp4ff.Base.{◌%◌, ◌^◌, ◌≡◌, refl, arith, true, false}
use mp4ff.Base.Int.{pos}
use mp4ff.Fragment.Samples.{new_sample, is_sync}
use mp4ff.Fragment.SampleFlags.{
  SampleFlags, encode_sample_flags, decode_sample_flags, is_sync_sample_flags,
  set_sync_sample_flags, set_non_sync_sample_flags,
}
use mp4ff.Fragment.SampleFlags.RoundTrip.{sample_flags_round_trip, encode-decode_sample_flags}
use mp4ff.Fragment.SampleFlags.Sync.{set_sync_sample_flags_lem}

-- The flags of a picture that is not a sync sample and depends on others.
abbrev a_flags : SampleFlags
a_flags = record {
  is_leading = 2;
  sample_depends_on = 1;
  sample_is_depended_on = 1;
  sample_has_redundancy = 2;
  sample_padding_value = 5;
  sample_is_non_sync = true;
  sample_degradation_priority = 0x1234;
}

sample_flags_round_trip_example : decode_sample_flags (encode_sample_flags a_flags) ≡ a_flags
sample_flags_round_trip_example = sample_flags_round_trip a_flags (record {
  leading = omega arith;
  depends = omega arith;
  depended = omega arith;
  redundancy = omega arith;
  padding = omega arith;
  priority = omega arith;
})

encode-decode_sample_flags_example :
    encode_sample_flags (decode_sample_flags 0xf965_1234) ≡ 0xf965_1234 % 2 ^ 28
encode-decode_sample_flags_example = encode-decode_sample_flags 0xf965_1234

-- Flags of a sample that depends on others: bit 24 is set.
set_sync_sample_flags_lem_example :
    (is_sync_sample_flags (set_sync_sample_flags 0x0101_0000) ≡ true)
    × ((decode_sample_flags (set_sync_sample_flags 0x0101_0000)).sample_is_non_sync ≡ false)
    × ((decode_sample_flags (set_sync_sample_flags 0x0101_0000)).sample_depends_on ≡ 3)
    × (is_sync (new_sample (set_sync_sample_flags 0x0101_0000) 1024 7 (pos 0)) ≡ false)
    × (is_sync_sample_flags (set_non_sync_sample_flags 0x0101_0000) ≡ false)
    × ((decode_sample_flags (set_non_sync_sample_flags 0x0101_0000)).sample_is_non_sync ≡ true)
    × ((decode_sample_flags (set_non_sync_sample_flags 0x0101_0000)).sample_depends_on ≡ 1)
    × (is_sync (new_sample (set_non_sync_sample_flags 0x0101_0000) 1024 7 (pos 0)) ≡ false)
set_sync_sample_flags_lem_example = set_sync_sample_flags_lem 0x0101_0000 1024 7 (pos 0)

encode_sample_flags_run : encode_sample_flags a_flags ≡ 0x096b_1234
unfolding encode_sample_flags
encode_sample_flags_run = refl
