-- ===== src/SampleTable/Stsc/Chunks.antt =====
-- The look-ups of mp4/stsc.go by the number of a sample or of a chunk.
use mp4ff.Base.{
  ℕ, zero, suc, ◌+◌, ◌-◌, ◌*◌, ◌/◌, ◌%◌, ◌^◌, Bool, ◌||◌, ◌&&◌, Option, none, some, List, [], ◌∷◌,
  length, get_elem?, ltb, leb, ◌==◌, if◌then◌else◌,
}
use mp4ff.Base.Action.{Result, ok, err, bad_interval}
use mp4ff.SampleTable.Search.{search_index}
use mp4ff.SampleTable.Stsc.{StscEntry, StscBox}

pub record Chunk : Type 0 where
  pub chunk_nr : ℕ
  pub start_sample_nr : ℕ
  pub nr_samples : ℕ

-- The entry at an index that is in range wherever this is used.
abbrev pub entry_at : List StscEntry → ℕ → StscEntry
entry_at [] i = record { first_chunk_nr = 0; samples_per_chunk = 0; first_sample_nr = 0 }
entry_at (e ∷ es) zero = e
entry_at (e ∷ es) (suc i) = entry_at es i

-- The search of `FindEntryNrForSampleNr`, whose middle is `uint32(low + high) >> 1`, with fuel.
unfoldable pub search_uint32 : ℕ → (ℕ → Bool) → ℕ → ℕ → ℕ
search_uint32 zero before low high = low
search_uint32 (suc fuel) before low high =
    let mid = (low + high) % 2 ^ 32 / 2 in
    let right = search_uint32 fuel before (mid + 1) high in
    let left = search_uint32 fuel before low mid in
    if ltb low high then (if before mid then right else left) else low

unfoldable pub find_entry_nr_for_sample_nr : StscBox → ℕ → ℕ → ℕ
find_entry_nr_for_sample_nr b sample_nr low =
    let high = length b.entries % 2 ^ 32 in
    let first_after =
      search_uint32 (high - low) (λ i. leb (entry_at b.entries i).first_sample_nr sample_nr) low
        high in
    (first_after + 2 ^ 32 - 1) % 2 ^ 32

unfoldable pub find_entry_nr_for_chunk_nr : StscBox → ℕ → ℕ
find_entry_nr_for_chunk_nr b nr =
    let first_after =
      search_index (λ i. leb (entry_at b.entries i).first_chunk_nr nr) 0 (length b.entries) in
    (first_after + 2 ^ 32 - 1) % 2 ^ 32

-- `(sampleNr - entry.FirstSampleNr) / entry.SamplesPerChunk`
abbrev pub nr_in_entry : ℕ → StscEntry → ℕ
nr_in_entry sample_nr e = (sample_nr + 2 ^ 32 - e.first_sample_nr) % 2 ^ 32 / e.samples_per_chunk

-- An index out of range and a division by 0 panic, which is `none`.
unfoldable pub chunk_nr_from_sample_nr : StscBox → ℕ → Option (ℕ × ℕ)
chunk_nr_from_sample_nr b sample_nr =
    elim (get_elem? b.entries (find_entry_nr_for_sample_nr b (sample_nr % 2 ^ 32) 0)) [
      | none ↦ none
      | some e ↦
          let n = nr_in_entry (sample_nr % 2 ^ 32) e in
          if e.samples_per_chunk == 0
          then none
          else some (
            (e.first_chunk_nr + n) % 2 ^ 32,
            (e.first_sample_nr + n * e.samples_per_chunk) % 2 ^ 32,
          )
    ]

-- The chunk `nr` of an entry.
abbrev pub chunk_of : StscEntry → ℕ → Chunk
chunk_of e nr = record {
  chunk_nr = nr;
  start_sample_nr =
      (e.first_sample_nr + (nr + 2 ^ 32 - e.first_chunk_nr) % 2 ^ 32 * e.samples_per_chunk)
      % 2 ^ 32;
  nr_samples = e.samples_per_chunk;
}

unfoldable pub get_chunk : StscBox → ℕ → Option Chunk
get_chunk b zero = none
get_chunk b (suc n) = elim (get_elem? b.entries (find_entry_nr_for_chunk_nr b (suc n))) [
  | none ↦ none
  | some e ↦ some (chunk_of e (suc n))
]

-- Whether the next chunk belongs to the next entry.
abbrev pub is_next : List StscEntry → ℕ → ℕ → Bool
is_next es entry_nr nr =
    ltb entry_nr (length es - 1) && suc nr % 2 ^ 32 == (entry_at es (suc entry_nr)).first_chunk_nr

-- `for chunkNr := startChunkNr; chunkNr <= endChunkNr; chunkNr++`, with the rounds left.
unfoldable pub chunks_loop : List StscEntry → ℕ → ℕ → ℕ → List Chunk
chunks_loop es zero entry_nr nr = []
chunks_loop es (suc n) entry_nr nr =
    chunk_of (entry_at es entry_nr) nr
    ∷ chunks_loop es n (if is_next es entry_nr nr then suc entry_nr else entry_nr) (suc nr)

-- The chunks from the one of a sample in entry `i` to that of a sample in entry `j`.
abbrev pub chunks_between :
    StscBox → ℕ → ℕ → ℕ → Option StscEntry → Option StscEntry → Option (Result (List Chunk))
chunks_between b start_nr end_nr i (some e) (some f) =
    let first = (nr_in_entry start_nr e + e.first_chunk_nr) % 2 ^ 32 in
    let last = (nr_in_entry end_nr f + f.first_chunk_nr) % 2 ^ 32 in
    if e.samples_per_chunk == 0 || f.samples_per_chunk == 0
    then none
    else some (ok (chunks_loop b.entries (last + 1 - first) i first))
chunks_between b start_nr end_nr i _ _ = none

-- Both numbers are one-based, and the last chunk number is below the last uint32.
unfoldable pub get_containing_chunks : StscBox → ℕ → ℕ → Option (Result (List Chunk))
get_containing_chunks b start_nr end_nr =
    let i = find_entry_nr_for_sample_nr b start_nr 0 in
    let j = find_entry_nr_for_sample_nr b end_nr i in
    if start_nr == 0 || ltb end_nr start_nr
    then some (err bad_interval)
    else chunks_between b start_nr end_nr i (get_elem? b.entries i) (get_elem? b.entries j)
