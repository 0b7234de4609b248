-- ===== src/Tests/Samples.antt =====
-- Samples of NAL units.
use mp4ff.Base.{◌≤◌, ◌≡◌, ◌≢◌, refl, arith, some, none, List, [], ◌∷◌, ◌++◌, Bytes, length}
use mp4ff.Base.Words.{be_bytes}
use mp4ff.Base.Action.{ok, err, out_of_fuel}
use mp4ff.Avc.Nalus.{nalus_loop, get_nalus_from_sample}
use mp4ff.Avc.Nalus.RoundTrip.{sample_of, get_nalus_from_sample_round_trip}
use mp4ff.Avc.Nalus.Fuel.{get_nalus_from_sample-terminates}
use mp4ff.Avc.Nalus.Sound.{get_nalus_from_sample_sound}
use mp4ff.Avc.Nalus.Panic.{get_nalus_from_sample_wraps}

abbrev two_nalus : List Bytes
two_nalus = (9 ∷ 240 ∷ []) ∷ (101 ∷ []) ∷ []

-- Two NAL units, of 2 bytes and of 1.
abbrev a_sample : Bytes
a_sample = 0 ∷ 0 ∷ 0 ∷ 2 ∷ 9 ∷ 240 ∷ 0 ∷ 0 ∷ 0 ∷ 1 ∷ 101 ∷ []

get_nalus_from_sample_run : get_nalus_from_sample a_sample ≡ some (ok two_nalus)
unfolding get_nalus_from_sample nalus_loop
get_nalus_from_sample_run = refl

get_nalus_from_sample_round_trip_example :
    get_nalus_from_sample (sample_of two_nalus) ≡ some (ok two_nalus)
unfolding be_bytes
get_nalus_from_sample_round_trip_example =
    get_nalus_from_sample_round_trip (9 ∷ 240 ∷ []) ((101 ∷ []) ∷ []) (omega arith) (omega arith)

get_nalus_from_sample-terminates_example : get_nalus_from_sample a_sample ≢ some (err out_of_fuel)
get_nalus_from_sample-terminates_example = get_nalus_from_sample-terminates a_sample (omega arith)

get_nalus_from_sample_sound_example :
    (tail : Bytes) × (a_sample ≡ sample_of two_nalus ++ tail) × (length tail ≤ 4)
get_nalus_from_sample_sound_example =
    get_nalus_from_sample_sound a_sample two_nalus (omega arith)
      (
        omega arith,
        (
          omega arith,
          (
            omega arith,
            (
              omega arith,
              (
                omega arith,
                (
                  omega arith,
                  (omega arith, (omega arith, (omega arith, (omega arith, (omega arith, tt))))),
                ),
              ),
            ),
          ),
        ),
      )
      get_nalus_from_sample_run

get_nalus_from_sample_wraps_example :
    get_nalus_from_sample (be_bytes 4 0xffff_ffff ++ (1 ∷ [])) ≡ none
get_nalus_from_sample_wraps_example =
    get_nalus_from_sample_wraps 0xffff_ffff (1 ∷ []) (omega arith) (omega arith) (omega arith)
      (omega arith)
