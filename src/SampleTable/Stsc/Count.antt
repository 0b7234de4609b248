-- ===== src/SampleTable/Stsc/Count.antt =====
-- Counting through all chunks of an stsc box: how many samples each has, and where it starts.
use mp4ff.Base.{
  ℕ, zero, suc, ◌+◌, ◌-◌, ◌*◌, ◌/◌, ◌<◌, ◌≤◌, ◌≡◌, refl, sym, ◌∙◌, inl, inr, arith, List, [], ◌∷◌,
  length, ltb, leb, ltb-false, ltb-true, Bool-cases, if◌then◌else◌,
}
use native.Mathlib.Nat.{div-mul-le_self, lt-div-mul-add}
use mp4ff.SampleTable.Stsc.{StscEntry, StscBox}
use mp4ff.SampleTable.Stsc.Chunks.{entry_at}
use mp4ff.SampleTable.Stsc.Table.{IsTable, Holds, ascend, below_product}

-- The number of samples in chunk `nr`: the entries in order, up to the last that has begun.
abbrev pub size_at : List StscEntry → ℕ → ℕ
size_at [] nr = 0
size_at (e ∷ []) nr = e.samples_per_chunk
size_at (e ∷ e' ∷ es) nr =
    if ltb nr e'.first_chunk_nr then e.samples_per_chunk else size_at (e' ∷ es) nr

-- The first sample behind the first `k` chunks, which is the first one of chunk `k + 1`.
abbrev pub start_at : List StscEntry → ℕ → ℕ
start_at es zero = 1
start_at es (suc k) = start_at es k + size_at es (suc k)

pub size_at-Holds :
    (es : List StscEntry) (nr i : ℕ)
    → ((j : ℕ)
        → j + 1 < length es
        → (entry_at es j).first_chunk_nr < (entry_at es (suc j)).first_chunk_nr)
    → Holds es (λ e. e.first_chunk_nr) nr i
    → size_at es nr ≡ (entry_at es i).samples_per_chunk
size_at-Holds [] nr i up h = absurd (omega (arith, h.inside))
size_at-Holds (e ∷ []) nr zero up h = refl
size_at-Holds (e ∷ []) nr (suc i) up h = absurd (omega (arith, h.inside))
size_at-Holds (e ∷ e' ∷ es) nr zero up h =
    rw (ltb-true nr e'.first_chunk_nr (h.until (omega arith))) refl
size_at-Holds (e ∷ e' ∷ es) nr (suc i) up h =
    let later = ascend (e ∷ e' ∷ es) (λ e. e.first_chunk_nr) up 1 (suc i) (omega arith) h.inside in
    rw (ltb-false nr e'.first_chunk_nr (omega (arith, later, h.from))) (
      size_at-Holds (e' ∷ es) nr i (λ j l. up (suc j) (omega arith))
        (record {
          inside = omega (arith, h.inside);
          from = h.from;
          until = λ l. h.until (omega arith);
        }))

another : (a m c d : ℕ) → c ≤ m → a + (m - c) * d + d ≡ a + (suc m - c) * d
another a m c d h = let e : suc m - c ≡ suc (m - c) = omega arith in rw e (grind arith)

module _ (b : StscBox) (t : IsTable b.entries) where
  abbrev InChunk : ℕ → ℕ → Type 0
  InChunk nr i = Holds b.entries (λ e. e.first_chunk_nr) nr i

  -- Where the chunk behind `k` others starts, counted from the start of its entry `i`.
  abbrev StartsAt : ℕ → ℕ → Type 0
  StartsAt k i =
      start_at b.entries k
      ≡ (entry_at b.entries i).first_sample_nr
        + (suc k - (entry_at b.entries i).first_chunk_nr) * (entry_at b.entries i).samples_per_chunk

  -- The next chunk of the same entry.
  same_entry : (k i : ℕ) → InChunk (suc k) i → StartsAt k i → StartsAt (suc k) i
  same_entry k i before s =
      let size = size_at-Holds b.entries (suc k) i t.ascends before in
      let from = before.from in
      rw (s, size)
        (another (entry_at b.entries i).first_sample_nr (suc k)
          (entry_at b.entries i).first_chunk_nr (entry_at b.entries i).samples_per_chunk
          (omega arith))

  -- The first chunk of the next entry.
  next_entry :
      (k i : ℕ)
      → InChunk (suc k) i
      → StartsAt k i
      → suc i < length b.entries
      → (entry_at b.entries (suc i)).first_chunk_nr ≡ suc (suc k)
      → StartsAt (suc k) (suc i)
  next_entry k i before s inside e =
      let again = same_entry k i before s in
      let step = t.step i (omega arith) in
      let step' = rw e at step in again ∙ sym step' ∙ rw e (grind arith)

  pub start_at-Holds : (k i : ℕ) → InChunk (suc k) i → StartsAt k i
  start_at-Holds zero zero h = rw (t.first_chunk, t.first_sample) (grind arith)
  start_at-Holds zero (suc i) h =
      let later =
        ascend b.entries (λ e. e.first_chunk_nr) t.ascends 1 (suc i) (omega arith) h.inside in
      absurd (omega (arith, later, t.ascends 0 (omega (arith, h.inside)), t.first_chunk, h.from))
  start_at-Holds (suc k) zero h =
      let before : InChunk (suc k) 0 = record {
        inside = h.inside;
        from = omega (arith, t.first_chunk);
        until = λ l. omega (arith, h.until l);
      } in
      same_entry k 0 before (start_at-Holds k 0 before)
  start_at-Holds (suc k) (suc i) h =
      elim (Bool-cases (leb (entry_at b.entries (suc i)).first_chunk_nr (suc k))) [
        | inl le ↦
            let before : InChunk (suc k) (suc i) = record {
              inside = h.inside;
              from = ground arith;
              until = λ l. omega (arith, h.until l);
            } in
            same_entry k (suc i) before (start_at-Holds k (suc i) before)
        | inr gt ↦
            let first : suc k < (entry_at b.entries (suc i)).first_chunk_nr = ground arith in
            let e : (entry_at b.entries (suc i)).first_chunk_nr ≡ suc (suc k) =
              omega (arith, h.from) in
            let up = t.ascends i (omega (arith, h.inside)) in
            let before : InChunk (suc k) i = record {
              inside = omega (arith, h.inside);
              from = omega arith;
              until = λ l. first;
            } in
            next_entry k i before (start_at-Holds k i before) h.inside e
      ]

  -- An entry with the chunk that a sample is in.
  chunk_in_entry :
      (nr i : ℕ)
      → Holds b.entries (λ e. e.first_sample_nr) nr i
      → InChunk
          ((entry_at b.entries i).first_chunk_nr
            + (nr - (entry_at b.entries i).first_sample_nr)
              / (entry_at b.entries i).samples_per_chunk)
          i
  chunk_in_entry nr i h = record {
    inside = h.inside;
    from = omega arith;
    until = λ l.
        let n = nr - (entry_at b.entries i).first_sample_nr in
        let gap =
          (entry_at b.entries (suc i)).first_chunk_nr - (entry_at b.entries i).first_chunk_nr in
        let lt : n < gap * (entry_at b.entries i).samples_per_chunk =
          omega (arith, h.until l, t.step i l, h.from) in
        omega (
          arith,
          below_product n gap (entry_at b.entries i).samples_per_chunk lt (t.positive i h.inside),
          t.ascends i l,
        );
  }

  -- The chunk that a sample is in, by its distance `q` from the start of its entry.
  pub sample_in_entry :
      (nr i q : ℕ)
      → Holds b.entries (λ e. e.first_sample_nr) nr i
      → (nr - (entry_at b.entries i).first_sample_nr) / (entry_at b.entries i).samples_per_chunk ≡ q
      → (k : ℕ) × ((entry_at b.entries i).first_chunk_nr + q ≡ suc k)
        × InChunk (suc k) i
        × (start_at b.entries k
            ≡ (entry_at b.entries i).first_sample_nr + q * (entry_at b.entries i).samples_per_chunk)
        × (start_at b.entries k ≤ nr)
        × (nr < start_at b.entries (suc k))
  sample_in_entry nr i q h e =
      let n = nr - (entry_at b.entries i).first_sample_nr in
      let spc = (entry_at b.entries i).samples_per_chunk in
      let fc = (entry_at b.entries i).first_chunk_nr in
      let one = ascend b.entries (λ e. e.first_chunk_nr) t.ascends 0 i (omega arith) h.inside in
      let nr_eq : fc + q ≡ suc (fc + q - 1) = omega (arith, t.first_chunk) in
      let c : InChunk (suc (fc + q - 1)) i = rw (← nr_eq, ← e) (chunk_in_entry nr i h) in
      let distance : suc (fc + q - 1) - fc ≡ q = omega (arith, t.first_chunk) in
      let s : start_at b.entries (fc + q - 1) ≡ (entry_at b.entries i).first_sample_nr + q * spc =
        start_at-Holds (fc + q - 1) i c ∙ rw distance in
      let low : q * spc ≤ n = rw (← e) (div-mul-le_self n spc) in
      let high : n < q * spc + spc = rw (← e) (lt-div-mul-add (t.positive i h.inside)) in
      let from = h.from in
      let size = size_at-Holds b.entries (suc (fc + q - 1)) i t.ascends c in
      (fc + q - 1, nr_eq, c, s, omega arith, omega arith)
