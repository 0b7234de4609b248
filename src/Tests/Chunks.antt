-- ===== src/Tests/Chunks.antt =====
-- Samples and chunks of an stsc box.
use mp4ff.Base.{
  ℕ, zero, suc, ◌+◌, ◌-◌, ◌*◌, ◌<◌, ◌≤◌, ◌≡◌, refl, arith, some, none, List, [], ◌∷◌, codes,
}
use mp4ff.Base.Action.{ok}
use mp4ff.Box.{Registry, UnknownBox, as_box}
use mp4ff.Box.Frame.{Codec}
use mp4ff.SampleTable.Stsc.{
  StscBox, decode_stsc_sr, encode_stsc_sw, encode_stsc, stsc_size, add_entry,
  get_sample_description_id,
}
use mp4ff.SampleTable.Stsc.Chunks.{
  entry_at, get_chunk, chunk_nr_from_sample_nr, get_containing_chunks,
}
use mp4ff.SampleTable.Stsc.RoundTrip.{Row, stsc_of, payload, stsc_round_trip}
use mp4ff.SampleTable.Stsc.Build.{add_entry_lem}
use mp4ff.SampleTable.Stsc.Table.{IsTable}
use mp4ff.SampleTable.Stsc.Order.{add_entry-IsTable}
use mp4ff.SampleTable.Stsc.Count.{start_at}
use mp4ff.SampleTable.Stsc.Lookup.{chunk_at, get_chunk_lem, chunk_nr_from_sample_nr_lem}
use mp4ff.SampleTable.Stsc.Interval.{chunks_from, get_containing_chunks_lem}

data Either : Type 0 where
  of_stsc : StscBox → Either
  of_other : UnknownBox → Either

abbrev only_stsc : Registry Either
only_stsc = record {
  decoders_sr = λ name. some (as_box of_stsc decode_stsc_sr);
  of_unknown = of_other;
}

-- Chunks 1 and 2 have three samples each, chunk 3 and all behind it have two, with another description.
abbrev rows : List Row
rows = (1, 3, 1) ∷ (3, 2, 2) ∷ []

abbrev two_entries : StscBox
two_entries = stsc_of 0 0 rows

stsc_round_trip_example :
    Codec only_stsc of_stsc two_entries
      (encode_stsc_sw two_entries)
      (encode_stsc two_entries)
      (stsc_size two_entries)
      (codes "stsc")
      (payload 0 0 rows)
stsc_round_trip_example =
    stsc_round_trip only_stsc of_stsc 0 0 rows refl (omega arith) (omega arith)
      (
        (omega arith, omega arith, omega arith, omega arith),
        ((omega arith, omega arith, omega arith, omega arith), tt),
      )
      (omega arith)

add_entry_lem_example :
    add_entry two_entries 9 1 2 ≡ ok (stsc_of 0 0 ((1, 3, 1) ∷ (3, 2, 2) ∷ (9, 1, 2) ∷ []))
add_entry_lem_example =
    add_entry_lem 0 0 (1, 3, 1) (9, 1, 2) ((3, 2, 2) ∷ []) (omega arith, (omega arith, tt))
      (omega arith)

two_entries-IsTable : IsTable two_entries.entries
two_entries-IsTable = record {
  not_empty = omega arith;
  small = omega arith;
  first_chunk = refl;
  first_sample = refl;
  positive = λ i h. at_positive i h;
  ascends = λ i h. at_ascends i h;
  step = λ i h. at_step i h;
}
  where
    at_positive : (i : ℕ) → i < 2 → 0 < (entry_at two_entries.entries i).samples_per_chunk
    at_positive zero h = omega arith
    at_positive (suc zero) h = omega arith
    at_positive (suc (suc i)) h = absurd (omega arith)

    at_ascends :
        (i : ℕ)
        → i + 1 < 2
        → (entry_at two_entries.entries i).first_chunk_nr
          < (entry_at two_entries.entries (suc i)).first_chunk_nr
    at_ascends zero h = omega arith
    at_ascends (suc i) h = absurd (omega arith)

    at_step :
        (i : ℕ)
        → i + 1 < 2
        → (entry_at two_entries.entries (suc i)).first_sample_nr
          ≡ (entry_at two_entries.entries i).first_sample_nr
            + ((entry_at two_entries.entries (suc i)).first_chunk_nr
                - (entry_at two_entries.entries i).first_chunk_nr)
              * (entry_at two_entries.entries i).samples_per_chunk
    at_step zero h = refl
    at_step (suc i) h = absurd (omega arith)

add_entry-IsTable_example :
    (b' : StscBox) × (add_entry two_entries 9 1 2 ≡ ok b')
    × (b'.entries
        ≡ record { first_chunk_nr = 1; samples_per_chunk = 3; first_sample_nr = 1 }
          ∷ record { first_chunk_nr = 3; samples_per_chunk = 2; first_sample_nr = 7 }
          ∷ record { first_chunk_nr = 9; samples_per_chunk = 1; first_sample_nr = 19 }
          ∷ [])
    × IsTable b'.entries
add_entry-IsTable_example =
    add_entry-IsTable two_entries 9 1 2 two_entries-IsTable (omega arith) (omega arith)
      (omega arith) (omega arith) (omega arith)

-- Chunk 4 starts with sample 9: behind three, three and two.
get_chunk_lem_example : get_chunk two_entries 4 ≡ some (chunk_at two_entries.entries 3)
get_chunk_lem_example = get_chunk_lem two_entries 3 two_entries-IsTable (omega arith) (omega arith)

chunk_nr_from_sample_nr_lem_example :
    (k : ℕ) × (chunk_nr_from_sample_nr two_entries 10
      ≡ some (suc k, start_at two_entries.entries k))
    × (start_at two_entries.entries k ≤ 10)
    × (10 < start_at two_entries.entries (suc k))
chunk_nr_from_sample_nr_lem_example =
    chunk_nr_from_sample_nr_lem two_entries 10 two_entries-IsTable (omega arith) (omega arith)

get_containing_chunks_lem_example :
    (k l : ℕ) × (get_containing_chunks two_entries 5 8
      ≡ some (ok (chunks_from two_entries.entries (suc l - k) k)))
    × (start_at two_entries.entries k ≤ 5)
    × (5 < start_at two_entries.entries (suc k))
    × (start_at two_entries.entries l ≤ 8)
    × (8 < start_at two_entries.entries (suc l))
get_containing_chunks_lem_example =
    get_containing_chunks_lem two_entries 5 8 two_entries-IsTable (omega arith) (omega arith)
      (omega arith)

-- The id of chunk 2, which is in the first entry, is taken from the second entry, and that of chunk 3,
-- which is in the second, panics.
description_of_chunk :
    (get_sample_description_id two_entries 2 ≡ some 2)
    × (get_sample_description_id two_entries 3 ≡ none)
unfolding get_sample_description_id
description_of_chunk = (refl, refl)
