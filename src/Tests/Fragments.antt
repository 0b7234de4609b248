-- ===== src/Tests/Fragments.antt =====
-- Boxes of a fragment, encoded and decoded, and the queries on a run of samples.
use mp4ff.Base.{ℕ, ◌<◌, ◌≡◌, refl, arith, true, none, some, [], ◌∷◌, codes, if◌then◌else◌}
use mp4ff.Base.Int.{pos}
use mp4ff.Base.Words.{IsUint32}
use mp4ff.Base.Action.{ok}
use mp4ff.Box.Frame.{Codec}
use mp4ff.Fragment.Trex.{TrexBox}
use mp4ff.Fragment.Tfhd.{
  TfhdBox, has_default_sample_duration, has_default_sample_size, has_default_sample_flags,
}
use mp4ff.Fragment.Trun.{
  Sample, TrunBox, expected_trun_size, bytes_per_sample, has_data_offset, has_first_sample_flags,
  has_sample_duration, has_sample_size, has_sample_flags, has_sample_composition_time_offset,
  encode_trun, encode_trun_sw, trun_size,
}
use mp4ff.Fragment.Trun.RoundTrip.{
  trun_round_trip, IsValidSample, payload as trun_payload, stored as stored_trun,
}
use mp4ff.Fragment.Trun.Queries.{
  default_duration, default_size, default_flags, add_defaults, add_defaults_loop, sum_dur,
  add_sample_default_values, get_sample_nr_for_relative_time,
}
use mp4ff.Fragment.Trun.Queries.Laws.{
  AllAgree, start_of, add_sample_default_values-stored, get_sample_nr_for_relative_time_complete,
}
use mp4ff.Boxes.{of_trun, Others, table}

abbrev a_trex : TrexBox
a_trex = record {
  version = 0;
  flags = 0;
  track_id = 1;
  default_sample_description_index = 1;
  default_sample_duration = 1024;
  default_sample_size = 0;
  default_sample_flags = 0x0101_0000;
}

-- A header with a default duration and default flags, whose description index is not stored.
abbrev a_tfhd : TfhdBox
a_tfhd = record {
  version = 0;
  flags = 0x02_0028;
  track_id = 1;
  base_data_offset = 0;
  sample_description_index = 1;
  default_sample_duration = 1001;
  default_sample_size = 0;
  default_sample_flags = 0x0101_0000;
}

abbrev a_sample : ℕ → ℕ → Sample
a_sample flags size = record {
  flags = flags;
  dur = 1001;
  size = size;
  composition_time_offset = pos 0;
}

-- Two samples with their sizes, the flags of the first one, and a data offset.
abbrev a_trun : TrunBox
a_trun = record {
  version = 0;
  flags = 0x205;
  data_offset = pos 112;
  first_sample_flags = 0x0200_0000;
  samples = a_sample 0x0200_0000 40 ∷ a_sample 0x0101_0000 8 ∷ [];
  write_order_nr = 3;
}

valid_sample :
    (flags size : ℕ) → IsUint32 flags → IsUint32 size → IsValidSample (a_sample flags size)
valid_sample flags size hf hs = record {
  flags = hf;
  dur = omega arith;
  size = hs;
  offset = omega arith;
}

trun_fits : IsUint32 (expected_trun_size 0x205 2)
unfolding expected_trun_size bytes_per_sample has_data_offset has_first_sample_flags
    has_sample_duration has_sample_size has_sample_flags has_sample_composition_time_offset
trun_fits = omega arith

abbrev no_others : Others
no_others name = none

trun_round_trip_example :
    Codec
      (table no_others)
      of_trun
      (stored_trun a_trun)
      (encode_trun_sw a_trun)
      (encode_trun a_trun)
      (trun_size a_trun)
      (codes "trun")
      (trun_payload a_trun)
trun_round_trip_example = trun_round_trip (table no_others) of_trun a_trun refl (record {
  version = omega arith;
  flags = omega arith;
  data_offset = omega arith;
  offset_set = λ h. refl;
  first_sample_flags = omega arith;
  samples = (
    valid_sample 0x0200_0000 40 (omega arith) (omega arith),
    (valid_sample 0x0101_0000 8 (omega arith) (omega arith), tt),
  );
  count = omega arith;
  many = refl;
  fits = trun_fits;
})

-- The first sample has the first-sample flags, the second one those of tfhd.
agree :
    AllAgree 0x205
      (if has_first_sample_flags 0x205 then 0x0200_0000 else 0)
      (default_duration a_tfhd none)
      (default_size a_tfhd none)
      (default_flags a_tfhd none)
      true
      a_trun.samples
unfolding has_first_sample_flags has_sample_duration has_sample_size has_sample_flags
    has_sample_composition_time_offset default_duration default_size default_flags
    has_default_sample_duration has_default_sample_size has_default_sample_flags
agree = (
  record {
    dur_default = λ h. refl;
    size_default = λ h. absurd (ground (arith, h));
    no_offset = λ h. refl;
    flags_default = λ h. refl;
  },
  (
    record {
      dur_default = λ h. refl;
      size_default = λ h. absurd (ground (arith, h));
      no_offset = λ h. refl;
      flags_default = λ h. refl;
    },
    tt,
  ),
)

add_sample_default_values-stored_example :
    ((add_sample_default_values (stored_trun a_trun) a_tfhd none).0.samples ≡ a_trun.samples)
    × ((add_sample_default_values (stored_trun a_trun) a_tfhd none).1 ≡ sum_dur 0 a_trun.samples)
add_sample_default_values-stored_example = add_sample_default_values-stored a_trun a_tfhd none agree

first_before : (j : ℕ) → j < 1 → start_of a_trun 1001 j < 1001
unfolding has_sample_duration
first_before j h = omega arith

-- The second sample starts when the first one, of the default duration 1001, ends.
get_sample_nr_for_relative_time_complete_example :
    get_sample_nr_for_relative_time a_trun 1001 1001 ≡ some (ok 2)
unfolding has_sample_duration
get_sample_nr_for_relative_time_complete_example =
    get_sample_nr_for_relative_time_complete a_trun 1001 1001 1 (omega arith) (omega arith)
      (λ h. omega arith) (omega arith) refl first_before

-- What a file keeps of the box has no durations.
decode_trun_run : (add_sample_default_values (stored_trun a_trun) a_tfhd (some a_trex)).1 ≡ 2002
unfolding add_sample_default_values add_defaults_loop add_defaults has_sample_duration
    default_duration has_default_sample_duration
decode_trun_run = refl
