-- ===== src/SampleTable/Stsc/Table.antt =====
-- The order that the entries of an stsc box keep, and what the searches of the box find in it.
use mp4ff.Base.{
  ℕ, zero, suc, ◌+◌, ◌-◌, ◌*◌, ◌/◌, ◌%◌, ◌^◌, ◌<◌, ◌≤◌, ◌≡◌, refl, inl, inr, arith, Bool, some,
  List, [], ◌∷◌, length, get_elem?, ltb, leb, Bool-cases,
}
use mp4ff.SampleTable.Search.{search_from, search_index, IsSplit, IsMonotone, search_index-IsSplit}
use mp4ff.SampleTable.Stsc.{StscEntry, StscBox}
use mp4ff.SampleTable.Stsc.Chunks.{
  entry_at, search_uint32, find_entry_nr_for_sample_nr, find_entry_nr_for_chunk_nr,
}

-- The first entry is of chunk 1 and sample 1, every entry has samples, and the next one starts with a
-- later chunk, at the sample behind those of the chunks between.
pub record IsTable (es : List StscEntry) : Type 0 where
  pub not_empty : 0 < length es
  pub small : length es < 2 ^ 31
  pub first_chunk : (entry_at es 0).first_chunk_nr ≡ 1
  pub first_sample : (entry_at es 0).first_sample_nr ≡ 1
  pub positive : (i : ℕ) → i < length es → 0 < (entry_at es i).samples_per_chunk
  pub ascends :
      (i : ℕ)
      → i + 1 < length es
      → (entry_at es i).first_chunk_nr < (entry_at es (suc i)).first_chunk_nr
  pub step :
      (i : ℕ)
      → i + 1 < length es
      → (entry_at es (suc i)).first_sample_nr
        ≡ (entry_at es i).first_sample_nr
          + ((entry_at es (suc i)).first_chunk_nr - (entry_at es i).first_chunk_nr)
            * (entry_at es i).samples_per_chunk

-- Entry `i` is the last one whose key is not above `nr`.
pub record Holds (es : List StscEntry) (key : StscEntry → ℕ) (nr i : ℕ) : Type 0 where
  pub inside : i < length es
  pub from : key (entry_at es i) ≤ nr
  pub until : i + 1 < length es → nr < key (entry_at es (suc i))

pub get_elem?-entry_at :
    (es : List StscEntry) (i : ℕ) → i < length es → get_elem? es i ≡ some (entry_at es i)
get_elem?-entry_at [] i h = absurd (omega arith)
get_elem?-entry_at (e ∷ es) zero h = refl
get_elem?-entry_at (e ∷ es) (suc i) h = get_elem?-entry_at es i (omega arith)

-- Below 2^31 entries, the middle does not wrap around.
search_uint32_lem :
    (fuel low high : ℕ) (before : ℕ → Bool)
    → low ≤ high
    → high < 2 ^ 31
    → search_uint32 fuel before low high ≡ search_from fuel before low high
unfolding search_uint32 search_from
search_uint32_lem zero low high before l h = refl
search_uint32_lem (suc fuel) low high before l h = elim (Bool-cases (ltb low high)) [
  | inl lt ↦
      let mid : (low + high) % 2 ^ 32 / 2 ≡ (low + high) / 2 = omega arith in
      let up : (low + high) / 2 + 1 ≤ high = ground arith in
      let left = search_uint32_lem fuel low ((low + high) / 2) before (omega arith) (omega arith) in
      let right = search_uint32_lem fuel ((low + high) / 2 + 1) high before up h in
      rw (lt, mid, left, right)
  | inr done ↦ rw done
]

module _ (es : List StscEntry) (key : StscEntry → ℕ)
    (up : (i : ℕ) → i + 1 < length es → key (entry_at es i) < key (entry_at es (suc i))) where
  pub ascend : (a b : ℕ) → a ≤ b → b < length es → key (entry_at es a) ≤ key (entry_at es b)
  ascend a zero l h = let e : a ≡ 0 = omega arith in rw e (omega arith)
  ascend a (suc b) l h = elim (Bool-cases (leb a b)) [
    | inl le ↦ omega (arith, ascend a b (ground arith) (omega arith), up b (omega arith))
    | inr gt ↦ let e : a ≡ suc b = ground arith in rw e (omega arith)
  ]

  monotone : (nr : ℕ) → IsMonotone (λ i. leb (key (entry_at es i)) nr) (length es)
  monotone nr a b l h t = ground (arith, ascend a b l h)

  -- The entry before the first one that the search passes over.
  IsSplit-Holds :
      (low nr r : ℕ)
      → low < length es
      → length es < 2 ^ 31
      → key (entry_at es low) ≤ nr
      → IsSplit (λ i. leb (key (entry_at es i)) nr) low (length es) r
      → Holds es key nr ((r + 2 ^ 32 - 1) % 2 ^ 32) × (low ≤ (r + 2 ^ 32 - 1) % 2 ^ 32)
  IsSplit-Holds low nr zero h n k s = absurd (ground (arith, s.bounds, s.above low (omega arith) h))
  IsSplit-Holds low nr (suc r) h n k s =
      let some_before : low ≤ r = elim (Bool-cases (leb low r)) [
        | inl le ↦ ground arith
        | inr gt ↦
            let e : suc r ≡ low = ground (arith, s.bounds) in
            absurd (ground (arith, s.above low (omega arith) h))
      ] in
      let e : (suc r + 2 ^ 32 - 1) % 2 ^ 32 ≡ r = omega (arith, s.bounds) in
      let below = s.below r some_before (omega arith) in
      rw e (
        record {
          inside = omega (arith, s.bounds);
          from = ground (arith, below);
          until = λ l. ground (arith, s.above (suc r) (omega arith) (omega arith));
        },
        some_before,
      )

  -- There is no other such entry.
  not_later : (nr i j : ℕ) → Holds es key nr i → Holds es key nr j → j ≤ i
  not_later nr i j hi hj = elim (Bool-cases (leb j i)) [
    | inl le ↦ ground arith
    | inr gt ↦
        let lt : suc i ≤ j = ground arith in
        let l = hj.inside in
        absurd (omega (arith, ascend (suc i) j lt l, hi.until (omega arith), hj.from))
  ]

  pub unique : (nr i j : ℕ) → Holds es key nr i → Holds es key nr j → i ≡ j
  unique nr i j hi hj = omega (arith, not_later nr i j hi hj, not_later nr j i hj hi)

-- Positive factors.
between : (a b c d : ℕ) → a < b → 0 < d → c < c + (b - a) * d
between a b c d h p = grind arith

pub below_product : (n a b : ℕ) → n < a * b → 0 < b → n / b < a
below_product n a b h p = grind arith

module _ (b : StscBox) (t : IsTable b.entries) where
  sample_up :
      (i : ℕ)
      → i + 1 < length b.entries
      → (entry_at b.entries i).first_sample_nr < (entry_at b.entries (suc i)).first_sample_nr
  sample_up i h =
      let e = t.step i h in
      rw e (
        between (entry_at b.entries i).first_chunk_nr (entry_at b.entries (suc i)).first_chunk_nr
          (entry_at b.entries i).first_sample_nr (entry_at b.entries i).samples_per_chunk
          (t.ascends i h) (t.positive i (omega arith)))

  -- The search for a sample from an entry that is not behind it.
  pub find_sample :
      (nr low : ℕ)
      → low < length b.entries
      → (entry_at b.entries low).first_sample_nr ≤ nr
      → Holds b.entries (λ e. e.first_sample_nr) nr (find_entry_nr_for_sample_nr b nr low)
        × (low ≤ find_entry_nr_for_sample_nr b nr low)
  unfolding find_entry_nr_for_sample_nr search_index
  find_sample nr low h k =
      let n = t.small in
      let e : length b.entries % 2 ^ 32 ≡ length b.entries = omega arith in
      let same =
        search_uint32_lem (length b.entries - low) low (length b.entries)
          (λ i. leb (entry_at b.entries i).first_sample_nr nr) (omega arith) n in
      rw (e, same)
        (IsSplit-Holds b.entries (λ e. e.first_sample_nr) sample_up low nr _ h n k
          (search_index-IsSplit (λ i. leb (entry_at b.entries i).first_sample_nr nr) low
            (length b.entries) (monotone b.entries (λ e. e.first_sample_nr) sample_up nr)
            (omega arith)))

  pub find_chunk :
      (nr : ℕ)
      → 1 ≤ nr
      → Holds b.entries (λ e. e.first_chunk_nr) nr (find_entry_nr_for_chunk_nr b nr)
  unfolding find_entry_nr_for_chunk_nr
  find_chunk nr h =
      (IsSplit-Holds b.entries (λ e. e.first_chunk_nr) t.ascends 0 nr _ t.not_empty t.small
        (omega (arith, t.first_chunk))
        (search_index-IsSplit (λ i. leb (entry_at b.entries i).first_chunk_nr nr) 0
          (length b.entries) (monotone b.entries (λ e. e.first_chunk_nr) t.ascends nr)
          (omega arith))).0
