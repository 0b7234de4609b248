-- ===== src/Tests/Offsets.antt =====
-- Composition time offsets, added and searched.
use mp4ff.Base.{ℕ, ◌≡◌, arith, some, List, [], ◌∷◌}
use mp4ff.Base.Int.{ℤ, pos, negsuc}
use mp4ff.Base.Action.{ok, err, counts_differ}
use mp4ff.SampleTable.Ctts.{add_sample_counts_and_offset, get_composition_time_offset}
use mp4ff.SampleTable.Ctts.Entries.{ctts_of, add_sample_counts_and_offset_lem}
use mp4ff.SampleTable.Ctts.Lookup.{get_composition_time_offset_lem}

-- Two samples that are shown two ticks later, and one that is shown one tick earlier.
abbrev runs : List (ℕ × ℤ)
runs = (2, pos 2) ∷ (1, negsuc 0) ∷ []

get_composition_time_offset_lem_example :
    get_composition_time_offset (ctts_of 1 0 runs) 3 ≡ some (negsuc 0)
get_composition_time_offset_lem_example =
    get_composition_time_offset_lem 1 0 2 runs (omega arith) (omega arith)

add_sample_counts_and_offset_lem_example :
    (add_sample_counts_and_offset (ctts_of 1 0 runs) (4 ∷ []) (pos 1 ∷ [])
      ≡ ok (ctts_of 1 0 ((2, pos 2) ∷ (1, negsuc 0) ∷ (4, pos 1) ∷ [])))
    × (add_sample_counts_and_offset
          (record { version = 1; flags = 0; end_sample_nr = []; sample_offset = [] })
          (4 ∷ [])
          (pos 1 ∷ [])
        ≡ ok (ctts_of 1 0 ((4, pos 1) ∷ [])))
    × (add_sample_counts_and_offset (ctts_of 1 0 runs) (4 ∷ []) (pos 1 ∷ pos 3 ∷ [])
        ≡ err counts_differ)
add_sample_counts_and_offset_lem_example =
    add_sample_counts_and_offset_lem 1 0 runs ((4, pos 1) ∷ []) (ctts_of 1 0 runs) (4 ∷ [])
      (pos 1 ∷ pos 3 ∷ []) (λ e. absurd (omega (arith, e)))
