-- ===== src/SampleTable/Ctts/Lookup.antt =====
-- `GetCompositionTimeOffset` of mp4/ctts.go finds the run of a sample.
use mp4ff.Base.{
  ℕ, zero, suc, ◌+◌, ◌-◌, ◌%◌, ◌^◌, ◌<◌, ◌≤◌, ◌≡◌, refl, sym, ap, ◌∙◌, arith, false, some, List, [],
  ◌∷◌, ◌++◌, map, length, get_elem?, get_or, replicate, ltb, ◌==◌,
}
use mp4ff.Base.Int.{ℤ}
use mp4ff.Base.Words.{IsUint32}
use mp4ff.SampleTable.Search.{IsSplit, search_index-IsSplit}
use mp4ff.SampleTable.Ctts.{running_ends, get_composition_time_offset}
use mp4ff.SampleTable.Ctts.Entries.{ctts_of}

-- The offsets of all samples, one by one.
abbrev pub offsets : List (ℕ × ℤ) → List ℤ
offsets [] = []
offsets (e ∷ es) = replicate e.0 e.1 ++ offsets es

abbrev pub nr_samples : List (ℕ × ℤ) → ℕ
nr_samples [] = 0
nr_samples (e ∷ es) = e.0 + nr_samples es

abbrev ends : ℕ → List (ℕ × ℤ) → List ℕ
ends acc entries = acc ∷ running_ends acc (map (λ e. e.0) entries)

first_run : (c n : ℕ) (o : ℤ) (os : List ℤ) → n < c → get_elem? (replicate c o ++ os) n ≡ some o
first_run zero n o os h = absurd (omega arith)
first_run (suc c) zero o os h = refl
first_run (suc c) (suc n) o os h = first_run c n o os (omega arith)

later_run :
    (c n k : ℕ) (o : ℤ) (os : List ℤ)
    → k ≡ c + n
    → get_elem? (replicate c o ++ os) k ≡ get_elem? os n
later_run zero n k o os h = let e : k ≡ n = omega arith in ap (get_elem? os) e
later_run (suc c) n zero o os h = absurd (omega arith)
later_run (suc c) n (suc k) o os h = later_run c n k o os (omega arith)

-- The ends ascend as long as the number of samples fits 32 bits.
ends-ascend :
    (acc a b : ℕ) (es : List (ℕ × ℤ))
    → acc + nr_samples es < 2 ^ 32
    → a ≤ b
    → b < length (ends acc es)
    → (acc ≤ get_or (ends acc es) b 0) × (get_or (ends acc es) a 0 ≤ get_or (ends acc es) b 0)
unfolding running_ends
ends-ascend acc zero zero es h l lt = (omega arith, omega arith)
ends-ascend acc a (suc b) [] h l lt = absurd (omega arith)
ends-ascend acc (suc a) zero es h l lt = absurd (omega arith)
ends-ascend acc zero (suc b) (e ∷ es) h l lt =
    let (up, _) =
      ends-ascend ((acc + e.0) % 2 ^ 32) 0 b es (omega arith) (omega arith) (omega arith) in
    (omega arith, omega arith)
ends-ascend acc (suc a) (suc b) (e ∷ es) h l lt =
    let (up, le) =
      ends-ascend ((acc + e.0) % 2 ^ 32) a b es (omega arith) (omega arith) (omega arith) in
    (omega arith, le)

-- The run of the sample behind `n` others, from the two sides of the search for its number `t`.
run_of :
    (acc n r t : ℕ) (es : List (ℕ × ℤ))
    → acc + nr_samples es < 2 ^ 32
    → n < nr_samples es
    → t ≡ acc + n + 1
    → IsSplit (λ h. ltb (get_or (ends acc es) h 0) t) 0 (length (ends acc es)) r
    → (i : ℕ) × (r ≡ suc i) × (get_elem? (map (λ e. e.1) es) i ≡ get_elem? (offsets es) n)
unfolding running_ends
run_of acc n r t [] h lt e s = absurd (omega arith)
run_of acc n zero t (x ∷ es) h lt e s =
    absurd (ground (arith, s.above 0 (omega arith) (omega arith)))
run_of acc n (suc zero) t (x ∷ es) h lt e s =
    let up = s.above 1 (omega arith) (omega arith) in
    let inside : n < x.0 = ground arith in (0, refl, sym (first_run x.0 n x.1 (offsets es) inside))
run_of acc n (suc (suc r)) t (x ∷ es) h lt e s =
    let low = s.below 1 (omega arith) (omega arith) in
    let behind : x.0 ≤ n = ground arith in
    let split : IsSplit (λ h. ltb (get_or (ends ((acc + x.0) % 2 ^ 32) es) h 0) t) 0
        (length (ends ((acc + x.0) % 2 ^ 32) es)) (suc r) =
      record {
        bounds = (omega arith, omega (arith, s.bounds));
        below = λ a l h. s.below (suc a) (omega arith) (omega arith);
        above = λ b l h. s.above (suc b) (omega arith) (omega arith);
      } in
    let (i, e₁, e₂) =
      run_of ((acc + x.0) % 2 ^ 32) (n - x.0) (suc r) t es (omega arith) (omega arith) (omega arith)
        split in
    (suc i, ap suc e₁, e₂ ∙ sym (later_run x.0 (n - x.0) n x.1 (offsets es) (omega arith)))

-- Every sample of a box made of runs has the offset of its run: for a number `n + 1` up to the number
-- of samples, which fits 32 bits, the binary search finds the element `n` of the offsets sample by
-- sample.
pub get_composition_time_offset_lem :
    (version flags n : ℕ) (entries : List (ℕ × ℤ))
    → IsUint32 (nr_samples entries)
    → n < nr_samples entries
    → get_composition_time_offset (ctts_of version flags entries) (n + 1)
      ≡ get_elem? (offsets entries) n
unfolding get_composition_time_offset
get_composition_time_offset_lem version flags n entries h lt =
    let split =
      search_index-IsSplit (λ h. ltb (get_or (ends 0 entries) h 0) (n + 1)) 0
        (length (ends 0 entries))
        (λ a b le l t. ground (arith, ends-ascend 0 a b entries (omega arith) le l))
        (omega arith) in
    let (i, e₁, e₂) = run_of 0 n _ (n + 1) entries (omega arith) lt (omega arith) split in
    let one_based : (n + 1 == 0) ≡ false = ground arith in
    let found : (suc i == 0) ≡ false = ground arith in
    let before : suc i - 1 ≡ i = omega arith in rw (one_based, e₁, found, before) e₂
