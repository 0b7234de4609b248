-- ===== src/Fragment/Trun/Queries.antt =====
-- The queries of mp4/trun.go on the samples of a run.
pub mod Laws
use mp4ff.Base.{
  ℕ, zero, suc, ◌+◌, ◌-◌, ◌*◌, ◌/◌, ◌%◌, ◌^◌, Bool, true, false, not, ◌&&◌, ◌||◌, Option, none,
  some, List, [], ◌∷◌, ◌++◌, Bytes, length, take, drop, ltb, leb, ◌==◌, if◌then◌else◌,
}
use mp4ff.Base.Action.{Result, ok, err, bad_sample, no_samples, no_match, too_late}
use mp4ff.Fragment.Tfhd.{
  TfhdBox, has_default_sample_duration, has_default_sample_size, has_default_sample_flags,
}
use mp4ff.Fragment.Trex.{TrexBox}
use mp4ff.Fragment.Trun.{
  Sample, TrunBox, has_first_sample_flags, has_sample_duration, has_sample_size, has_sample_flags,
  sample_count,
}

-- A default of tfhd if it is present, of trex if there is one, or 0.
abbrev pub default_value : Bool → ℕ → (TrexBox → ℕ) → Option TrexBox → ℕ
default_value present of_tfhd of_trex trex =
    if present then of_tfhd else elim trex [ none ↦ 0 | some x ↦ of_trex x ]

unfoldable pub default_duration : TfhdBox → Option TrexBox → ℕ
default_duration tfhd trex =
    default_value (has_default_sample_duration tfhd.flags) tfhd.default_sample_duration
      (λ x. x.default_sample_duration) trex

unfoldable pub default_size : TfhdBox → Option TrexBox → ℕ
default_size tfhd trex =
    default_value (has_default_sample_size tfhd.flags) tfhd.default_sample_size
      (λ x. x.default_sample_size) trex

unfoldable pub default_flags : TfhdBox → Option TrexBox → ℕ
default_flags tfhd trex =
    default_value (has_default_sample_flags tfhd.flags) tfhd.default_sample_flags
      (λ x. x.default_sample_flags) trex

-- The body of the loop of `AddSampleDefaultValues`; `is_first` is `i == 0`.
unfoldable pub add_defaults : ℕ → ℕ → ℕ → ℕ → Bool → Sample → Sample
add_defaults flags dur size sample_flags is_first s = record s {
  dur = if not (has_sample_duration flags) then dur else s.dur;
  size = if not (has_sample_size flags) then size else s.size;
  flags =
      if not (has_sample_flags flags) && (not is_first || not (has_first_sample_flags flags))
      then sample_flags
      else s.flags;
}

-- The loop, with `totalDur` as a uint64.
unfoldable pub add_defaults_loop : ℕ → ℕ → ℕ → ℕ → Bool → ℕ → List Sample → List Sample × ℕ
add_defaults_loop flags dur size sample_flags is_first total [] = ([], total)
add_defaults_loop flags dur size sample_flags is_first total (s ∷ ss) =
    let s' = add_defaults flags dur size sample_flags is_first s in
    let (rest, total') =
      add_defaults_loop flags dur size sample_flags false ((total + s'.dur) % 2 ^ 64) ss in
    (s' ∷ rest, total')

-- Over the samples that `SampleCount` counts, which are all if there are fewer than 2^32.
unfoldable pub add_sample_default_values : TrunBox → TfhdBox → Option TrexBox → TrunBox × ℕ
add_sample_default_values t tfhd trex =
    let (samples, total) =
      add_defaults_loop t.flags (default_duration tfhd trex) (default_size tfhd trex)
        (default_flags tfhd trex) true 0 (take (sample_count t) t.samples) in
    (record t { samples = samples ++ drop (sample_count t) t.samples }, total)

-- `accDur` and `SizeOfData`: sums of uint64.
unfoldable pub sum_dur : ℕ → List Sample → ℕ
sum_dur acc [] = acc
sum_dur acc (s ∷ ss) = sum_dur ((acc + s.dur) % 2 ^ 64) ss

unfoldable pub sum_size : ℕ → List Sample → ℕ
sum_size acc [] = acc
sum_size acc (s ∷ ss) = sum_size ((acc + s.size) % 2 ^ 64) ss

unfoldable pub size_of_data : TrunBox → ℕ
size_of_data t = sum_size 0 t.samples

unfoldable pub duration : TrunBox → ℕ → ℕ
duration t default_dur =
    if not (has_sample_duration t.flags)
    then default_dur * sample_count t % 2 ^ 64
    else sum_dur 0 t.samples

-- The comparisons of `CommonSampleDuration`: `true` if every duration is `dur`.
unfoldable pub all_have_dur : ℕ → List Sample → Bool
all_have_dur dur [] = true
all_have_dur dur (s ∷ ss) = s.dur == dur && all_have_dur dur ss

unfoldable pub common_of : List Sample → ℕ
common_of [] = 0
common_of (s ∷ ss) = if all_have_dur s.dur ss then s.dur else 0

unfoldable pub common_sample_duration : TrunBox → ℕ → ℕ
common_sample_duration t default_dur =
    if not (has_sample_duration t.flags) then default_dur else common_of t.samples

-- The search of `GetSampleNrForRelativeTime`: `nr` and `accTime` where the loop stops, and `found`.
unfoldable pub find_time : ℕ → ℕ → ℕ → List Sample → ℕ × ℕ × Bool
find_time delta acc nr [] = (nr, acc, false)
find_time delta acc nr (s ∷ ss) =
    let rest = find_time delta ((acc + s.dur) % 2 ^ 64) ((nr + 1) % 2 ^ 32) ss in
    if leb delta acc then (nr, acc, true) else rest

-- A default duration of 0 makes Go's division panic; here it is `none`.
unfoldable pub get_sample_nr_for_relative_time : TrunBox → ℕ → ℕ → Option (Result ℕ)
get_sample_nr_for_relative_time t delta default_dur =
    if sample_count t == 0
    then some (err no_samples)
    else if not (has_sample_duration t.flags)
    then (if default_dur == 0
        then none
        else if leb (sample_count t) (delta / default_dur)
        then some (err too_late)
        else if (delta / default_dur) * default_dur == delta
        then some (ok ((delta / default_dur + 1) % 2 ^ 32))
        else some (err no_match))
    else (let (nr, acc, found) = find_time delta 0 0 t.samples in
        if found && acc == delta then some (ok ((nr + 1) % 2 ^ 32)) else some (err no_match))
