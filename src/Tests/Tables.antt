-- ===== src/Tests/Tables.antt =====
-- Sample tables, encoded, decoded and searched.
use mp4ff.Base.{
  ℕ, ◌+◌, ◌%◌, ◌^◌, ◌≤◌, ◌≡◌, ◌↔◌, refl, arith, true, ltb, some, [], ◌∷◌, length, get_elem?,
}
use mp4ff.Base.Action.{ok}
use mp4ff.SampleTable.Search.{IsMonotone}
use mp4ff.SampleTable.Stts.{SttsBox, get_decode_time, get_sample_nr_at_time}
use mp4ff.SampleTable.Stts.RoundTrip.{stts_of}
use mp4ff.SampleTable.Stts.Lookup.{durations, start_time, get_decode_time_lem}
use mp4ff.SampleTable.Stts.AtTime.{
  FirstAt, get_sample_nr_at_time_lem, get_sample_nr_at_time_past_last,
}
use mp4ff.SampleTable.Stss.{StssBox, is_sync_sample}
use mp4ff.SampleTable.Stss.Lookup.{is_sync_sample_iff}
use mp4ff.SampleTable.Stsz.{StszBox, expected_stsz_size, get_total_sample_size}
use mp4ff.SampleTable.Stsz.RoundTrip.{IsValid as IsValidStsz}
use mp4ff.SampleTable.Stsz.Sizes.{get_total_sample_size_lem}

-- The numbers below 3, among the first 5.
below_3 : IsMonotone (λ a. ltb a 3) 5
below_3 a b h l t = ground arith

-- Two samples of 10 and one of 20.
abbrev three : SttsBox
three = stts_of 0 0 ((2, 10) ∷ (1, 20) ∷ [])

get_decode_time_lem_example : get_decode_time three 3 ≡ some (20, 20)
unfolding durations start_time
get_decode_time_lem_example = get_decode_time_lem three 2 refl (omega arith)

get_sample_nr_at_time_lem_example :
    (k : ℕ) × (get_sample_nr_at_time three 15 ≡ some (ok (k + 1)))
    × FirstAt 15 0 k (durations (2 ∷ 1 ∷ []) (10 ∷ 20 ∷ []))
    × (k ≤ length (durations (2 ∷ 1 ∷ []) (10 ∷ 20 ∷ [])))
unfolding durations start_time
get_sample_nr_at_time_lem_example =
    get_sample_nr_at_time_lem three 15 (omega arith, (omega arith, tt)) (omega arith) (omega arith)
      (omega arith)

-- The third and last sample starts at 20 and ends at 40.
get_sample_nr_at_time_past_last_example : get_sample_nr_at_time three 30 ≡ some (ok 4)
unfolding durations start_time
get_sample_nr_at_time_past_last_example =
    get_sample_nr_at_time_past_last three 30 2 (omega arith, (omega arith, tt)) refl (omega arith)
      (omega arith) (omega arith) (omega arith)

abbrev a_stss : StssBox
a_stss = record { version = 0; flags = 0; sample_number = 1 ∷ 25 ∷ 50 ∷ [] }

is_sync_sample_iff_example :
    (is_sync_sample a_stss 25 ≡ true) ↔ ((i : ℕ) × (get_elem? a_stss.sample_number i ≡ some 25))
is_sync_sample_iff_example =
    is_sync_sample_iff a_stss 25 ((omega arith, (omega arith, tt)), ((omega arith, tt), (tt, tt)))

abbrev a_stsz : StszBox
a_stsz = record {
  version = 0;
  flags = 0;
  sample_uniform_size = 0;
  sample_number = 3;
  sample_size = 100 ∷ 20 ∷ 30 ∷ [];
}

valid_stsz : IsValidStsz a_stsz
unfolding expected_stsz_size
valid_stsz = record {
  version = omega arith;
  flags = omega arith;
  uniform = omega arith;
  number = omega arith;
  sizes = (omega arith, (omega arith, (omega arith, tt)));
  listed = λ h. refl;
  common = λ h. absurd (omega arith);
  fits = ground arith;
}

get_total_sample_size_lem_example : get_total_sample_size a_stsz 2 3 ≡ some (ok (50 % 2 ^ 64))
get_total_sample_size_lem_example =
    get_total_sample_size_lem a_stsz valid_stsz 2 3 (omega arith) (omega arith) (omega arith)
      (omega arith)
