-- ===== src/SampleTable/Stsc/Interval.antt =====
-- The chunks that hold an interval of samples.
use mp4ff.Base.{
  ℕ, zero, suc, ◌+◌, ◌-◌, ◌/◌, ◌%◌, ◌^◌, ◌<◌, ◌≤◌, ◌≡◌, refl, ap, inl, inr, arith, false, ◌||◌,
  some, List, [], ◌∷◌, length, ltb, leb, ◌==◌, Bool-cases, if◌then◌else◌,
}
use native.Mathlib.Nat.{div-le_self}
use mp4ff.Base.Words.{IsUint32}
use mp4ff.Base.Action.{ok}
use mp4ff.SampleTable.Stsc.{StscEntry, StscBox}
use mp4ff.SampleTable.Stsc.Chunks.{
  Chunk, entry_at, nr_in_entry, is_next, chunks_loop, find_entry_nr_for_sample_nr,
  get_containing_chunks,
}
use mp4ff.SampleTable.Stsc.Table.{IsTable, Holds, get_elem?-entry_at, ascend, find_sample}
use mp4ff.SampleTable.Stsc.Count.{start_at, sample_in_entry}
use mp4ff.SampleTable.Stsc.Lookup.{chunk_at, chunk_of_lem}

-- The `n` chunks behind `k` others.
abbrev pub chunks_from : List StscEntry → ℕ → ℕ → List Chunk
chunks_from es zero k = []
chunks_from es (suc n) k = chunk_at es k ∷ chunks_from es n (suc k)

start_at-ascends : (es : List StscEntry) (a b : ℕ) → a ≤ b → start_at es a ≤ start_at es b
start_at-ascends es a zero h = let e : a ≡ 0 = omega arith in rw e (omega arith)
start_at-ascends es a (suc b) h = elim (Bool-cases (leb a b)) [
  | inl le ↦ omega (arith, start_at-ascends es a b (ground arith))
  | inr gt ↦ let e : a ≡ suc b = ground arith in rw e (omega arith)
]

module _ (b : StscBox) (t : IsTable b.entries) where
  abbrev InChunk : ℕ → ℕ → Type 0
  InChunk nr i = Holds b.entries (λ e. e.first_chunk_nr) nr i

  -- The loop goes on in the entry of the next chunk.
  next_chunk :
      (k i : ℕ)
      → InChunk (suc k) i
      → IsUint32 (suc (suc k))
      → InChunk (suc (suc k)) (if is_next b.entries i (suc k) then suc i else i)
  next_chunk k i h small =
      let nr : suc (suc k) % 2 ^ 32 ≡ suc (suc k) = omega arith in
      elim (Bool-cases (is_next b.entries i (suc k))) [
        | inl here ↦
            let inside : suc i < length b.entries = ground arith in
            let e : suc (suc k) ≡ (entry_at b.entries (suc i)).first_chunk_nr = ground arith in
            rw here (record {
              inside = inside;
              from = omega arith;
              until = λ l. omega (arith, t.ascends (suc i) l);
            })
        | inr same ↦ rw same (record {
          inside = h.inside;
          from = omega (arith, h.from);
          until = λ l. ground (arith, h.until l);
        })
      ]

  chunks_loop_lem :
      (n k i l : ℕ)
      → InChunk (suc k) i
      → k + n ≡ suc l
      → IsUint32 (suc l)
      → IsUint32 (start_at b.entries l)
      → chunks_loop b.entries n i (suc k) ≡ chunks_from b.entries n k
  unfolding chunks_loop
  chunks_loop_lem zero k i l h e small start = refl
  chunks_loop_lem (suc zero) k i l h e small start =
      let e' : k ≡ l = omega arith in
      ap (λ c. c ∷ []) (chunk_of_lem b t k i (omega arith) (rw e' start) h)
  chunks_loop_lem (suc (suc n)) k i l h e small start =
      let up = start_at-ascends b.entries k l (omega arith) in
      let next = next_chunk k i h (omega arith) in
      rw (
        chunk_of_lem b t k i (omega arith) (omega arith) h,
        chunks_loop_lem (suc n) (suc k) _ l next (omega arith) small start,
      )

  -- What the code computes of the chunk of a sample.
  chunk_of_sample :
      (nr i : ℕ)
      → Holds b.entries (λ e. e.first_sample_nr) nr i
      → (entry_at b.entries (length b.entries - 1)).first_chunk_nr + nr < 2 ^ 32 - 1
      → (k : ℕ) × ((nr_in_entry nr (entry_at b.entries i) + (entry_at b.entries i).first_chunk_nr)
            % 2 ^ 32
          ≡ suc k)
        × InChunk (suc k) i
        × (start_at b.entries k ≤ nr)
        × (nr < start_at b.entries (suc k))
        × (suc k < 2 ^ 32 - 1)
        × (((entry_at b.entries i).samples_per_chunk == 0) ≡ false)
  chunk_of_sample nr i h hi =
      let fsn = (entry_at b.entries i).first_sample_nr in
      let spc = (entry_at b.entries i).samples_per_chunk in
      let (k, nr_eq, c, s, low, high) = sample_in_entry b t nr i ((nr - fsn) / spc) h refl in
      let last =
        ascend b.entries (λ e. e.first_chunk_nr) t.ascends i (length b.entries - 1)
          (omega (arith, h.inside)) (omega (arith, t.not_empty)) in
      let near = div-le_self (nr - fsn) spc in
      let n : (nr + 2 ^ 32 - fsn) % 2 ^ 32 ≡ nr - fsn = omega (arith, h.from) in
      let nr_fits : ((nr - fsn) / spc + (entry_at b.entries i).first_chunk_nr) % 2 ^ 32 ≡ suc k =
        omega arith in
      (k, rw n nr_fits, c, low, high, omega arith, ground (arith, t.positive i h.inside))

-- `GetContainingChunks` gives exactly the chunks from the one that holds the first sample to the one
-- that holds the last, in order, each as counting through all chunks gives it. The interval is one of
-- one-based numbers, the entries are in order from chunk 1 and sample 1, and the last entry's chunk and
-- the last sample's number add up to less than the last uint32.
pub get_containing_chunks_lem :
    (b : StscBox) (start_nr end_nr : ℕ)
    → IsTable b.entries
    → 1 ≤ start_nr
    → start_nr ≤ end_nr
    → (entry_at b.entries (length b.entries - 1)).first_chunk_nr + end_nr < 2 ^ 32 - 1
    → (k l : ℕ) × (get_containing_chunks b start_nr end_nr
        ≡ some (ok (chunks_from b.entries (suc l - k) k)))
      × (start_at b.entries k ≤ start_nr)
      × (start_nr < start_at b.entries (suc k))
      × (start_at b.entries l ≤ end_nr)
      × (end_nr < start_at b.entries (suc l))
unfolding get_containing_chunks
get_containing_chunks_lem b start_nr end_nr t lo mid hi =
    let i = find_entry_nr_for_sample_nr b start_nr 0 in
    let j = find_entry_nr_for_sample_nr b end_nr i in
    let (h, _) = find_sample b t start_nr 0 t.not_empty (omega (arith, t.first_sample)) in
    let (h', _) = find_sample b t end_nr i h.inside (omega (arith, h.from)) in
    let (k, first, c, low, high, small, many) = chunk_of_sample b t start_nr i h (omega arith) in
    let (l, last, c', low', high', small', many') = chunk_of_sample b t end_nr j h' hi in
    let test : (start_nr == 0 || ltb end_nr start_nr) ≡ false = ground arith in
    let order : k ≤ l = elim (Bool-cases (leb k l)) [
      | inl le ↦ ground arith
      | inr gt ↦ absurd (omega (arith, start_at-ascends b.entries (suc l) k (ground arith)))
    ] in
    let count : suc l + 1 - suc k ≡ suc l - k = omega arith in
    let chunks =
      chunks_loop_lem b t (suc l - k) k i l c (omega arith) (omega arith) (omega arith) in
    (
      k,
      l,
      rw
          (
            test,
            get_elem?-entry_at b.entries i h.inside,
            get_elem?-entry_at b.entries j h'.inside,
            first,
            last,
            many,
            many',
            count,
            chunks,
          )
          refl,
      low,
      high,
      low',
      high',
    )
