-- ===== src/SampleTable/Stsc/Lookup.antt =====
-- The chunk of a sample and the samples of a chunk, as counting through all chunks gives them.
use mp4ff.Base.{
  ℕ, suc, ◌+◌, ◌-◌, ◌*◌, ◌/◌, ◌%◌, ◌^◌, ◌<◌, ◌≤◌, ◌≡◌, refl, ap, arith, false, some, List, length,
  ◌==◌,
}
use native.Mathlib.Nat.{div-le_self}
use mp4ff.Base.Words.{IsUint32}
use mp4ff.SampleTable.Stsc.{StscEntry, StscBox}
use mp4ff.SampleTable.Stsc.Chunks.{
  Chunk, entry_at, nr_in_entry, chunk_of, find_entry_nr_for_sample_nr, chunk_nr_from_sample_nr,
  get_chunk,
}
use mp4ff.SampleTable.Stsc.Table.{
  IsTable, Holds, get_elem?-entry_at, ascend, find_sample, find_chunk,
}
use mp4ff.SampleTable.Stsc.Count.{size_at, start_at, size_at-Holds, start_at-Holds, sample_in_entry}

-- The chunk behind `k` others.
abbrev pub chunk_at : List StscEntry → ℕ → Chunk
chunk_at es k = record {
  chunk_nr = suc k;
  start_sample_nr = start_at es k;
  nr_samples = size_at es (suc k);
}

pub chunk_of_lem :
    (b : StscBox) (t : IsTable b.entries) (k i : ℕ)
    → IsUint32 (suc k)
    → IsUint32 (start_at b.entries k)
    → Holds b.entries (λ e. e.first_chunk_nr) (suc k) i
    → chunk_of (entry_at b.entries i) (suc k) ≡ chunk_at b.entries k
chunk_of_lem b t k i small start h =
    let nr : (suc k + 2 ^ 32 - (entry_at b.entries i).first_chunk_nr) % 2 ^ 32
        ≡ suc k - (entry_at b.entries i).first_chunk_nr =
      omega (arith, h.from) in
    let fits : start_at b.entries k % 2 ^ 32 ≡ start_at b.entries k = omega arith in
    rw (nr, ← start_at-Holds b t k i h, fits, size_at-Holds b.entries (suc k) i t.ascends h)

-- `GetChunk` of every chunk number gives the chunk that counting through all chunks gives: it starts
-- behind the samples of the chunks before it. The entries are in order from chunk 1 and sample 1, and
-- the numbers fit 32 bits.
pub get_chunk_lem :
    (b : StscBox) (k : ℕ)
    → IsTable b.entries
    → IsUint32 (suc k)
    → IsUint32 (start_at b.entries k)
    → get_chunk b (suc k) ≡ some (chunk_at b.entries k)
unfolding get_chunk
get_chunk_lem b k t small start =
    let h = find_chunk b t (suc k) (omega arith) in
    rw (get_elem?-entry_at b.entries _ h.inside, get_chunk)
      (ap some (chunk_of_lem b t k _ small start h))

-- `ChunkNrFromSampleNr` finds the chunk of every sample, with the number of its first sample: the
-- sample is not before that one, and is before the next chunk. The entries are in order from chunk 1
-- and sample 1, and the last entry's chunk and the sample number add up to 32 bits.
pub chunk_nr_from_sample_nr_lem :
    (b : StscBox) (nr : ℕ)
    → IsTable b.entries
    → 1 ≤ nr
    → IsUint32 ((entry_at b.entries (length b.entries - 1)).first_chunk_nr + nr)
    → (k : ℕ) × (chunk_nr_from_sample_nr b nr ≡ some (suc k, start_at b.entries k))
      × (start_at b.entries k ≤ nr)
      × (nr < start_at b.entries (suc k))
unfolding chunk_nr_from_sample_nr
chunk_nr_from_sample_nr_lem b nr t lo hi =
    let (h, _) = find_sample b t nr 0 t.not_empty (omega (arith, t.first_sample)) in
    let i = find_entry_nr_for_sample_nr b nr 0 in
    let fsn = (entry_at b.entries i).first_sample_nr in
    let spc = (entry_at b.entries i).samples_per_chunk in
    let q = (nr - fsn) / spc in
    let (k, nr_eq, c, s, low, high) = sample_in_entry b t nr i q h refl in
    let last =
      ascend b.entries (λ e. e.first_chunk_nr) t.ascends i (length b.entries - 1)
        (omega (arith, h.inside)) (omega (arith, t.not_empty)) in
    let whole : nr % 2 ^ 32 ≡ nr = omega arith in
    let n : (nr + 2 ^ 32 - fsn) % 2 ^ 32 ≡ nr - fsn = omega (arith, h.from) in
    let in_entry : nr_in_entry (nr % 2 ^ 32) (entry_at b.entries i) ≡ q = rw (whole, n) refl in
    let many : (spc == 0) ≡ false = ground (arith, t.positive i h.inside) in
    let near = div-le_self (nr - fsn) spc in
    let nr_fits : ((entry_at b.entries i).first_chunk_nr + q) % 2 ^ 32 ≡ suc k = omega arith in
    let start_fits : (fsn + q * spc) % 2 ^ 32 ≡ start_at b.entries k = omega arith in
    (
      k,
      rw
          (
            whole,
            get_elem?-entry_at b.entries i h.inside,
            many,
            in_entry,
            nr_fits,
            start_fits,
            chunk_nr_from_sample_nr,
          )
          refl,
      low,
      high,
    )
