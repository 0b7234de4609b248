-- ===== src/SampleTable/Stsz/Sizes.antt =====
-- What the lookups of an stsz box compute, with a common size or with a list of sizes.
use mp4ff.Base.{
  ℕ, zero, suc, ◌+◌, ◌-◌, ◌*◌, ◌%◌, ◌^◌, ◌<◌, ◌≤◌, ◌≡◌, refl, ap, ◌∙◌, some, List, [], ◌∷◌, length,
  get_elem?, take, drop, replicate, length-replicate, arith, ◌==◌, if◌then◌else◌, Bool-cases, inl,
  inr,
}
use mp4ff.Base.Action.{ok}
use mp4ff.SampleTable.Stsz.{
  StszBox, get_nr_samples, get_sample_size, sum_sizes, get_total_sample_size,
}
use mp4ff.SampleTable.Stsz.RoundTrip.{IsValid}

-- The size of every sample.
abbrev pub sizes_of : StszBox → List ℕ
sizes_of b =
    if b.sample_uniform_size == 0
    then b.sample_size
    else replicate b.sample_number b.sample_uniform_size

abbrev pub sum : List ℕ → ℕ
sum [] = 0
sum (x ∷ xs) = x + sum xs

sum_of_uniform : (n k m x : ℕ) → k + n ≤ m → sum (take n (drop k (replicate m x))) ≡ n * x
sum_of_uniform zero k m x h = omega arith
sum_of_uniform (suc n) zero (suc m) x h = omega (arith, sum_of_uniform n 0 m x (omega arith))
sum_of_uniform (suc n) (suc k) (suc m) x h = sum_of_uniform (suc n) k m x (omega arith)
sum_of_uniform (suc n) k zero x h = absurd (omega arith)

get_elem?-replicate : (i n x : ℕ) → i < n → get_elem? (replicate n x) i ≡ some x
get_elem?-replicate i zero x h = absurd (omega arith)
get_elem?-replicate zero (suc n) x h = refl
get_elem?-replicate (suc i) (suc n) x h = get_elem?-replicate i n x (omega arith)

-- An index in range, with the rest of the list from there.
get_elem?-drop :
    (k : ℕ) (xs : List ℕ)
    → k < length xs
    → (x : ℕ) × (get_elem? xs k ≡ some x) × (drop k xs ≡ x ∷ drop (suc k) xs)
get_elem?-drop k [] h = absurd (omega arith)
get_elem?-drop zero (x ∷ xs) h = (x, refl, refl)
get_elem?-drop (suc k) (x ∷ xs) h = get_elem?-drop k xs (omega arith)

sum_sizes_lem :
    (n nr size : ℕ) (xs : List ℕ)
    → nr + n ≤ length xs
    → size < 2 ^ 64
    → sum_sizes n nr size xs ≡ some ((size + sum (take n (drop nr xs))) % 2 ^ 64)
unfolding sum_sizes
sum_sizes_lem zero nr size xs h l = ap some (omega arith)
sum_sizes_lem (suc n) nr size xs h l =
    let (x, e, d) = get_elem?-drop nr xs (omega arith) in
    rw (e, d, sum_sizes)
      (sum_sizes_lem n (suc nr) ((size + x) % 2 ^ 64) xs (omega arith) (omega arith)
        ∙ ap some (omega arith))

module _ (b : StszBox) (v : IsValid b) where
  -- Every sample has its size: for a number from 1 to the number of samples, `GetSampleSize` is the
  -- element of the list of sizes, common or listed, and there are `GetNrSamples` of them.
  pub get_sample_size_lem :
      (i : ℕ)
      → i < b.sample_number
      → (get_sample_size b (suc i) ≡ get_elem? (sizes_of b) i)
        × (get_nr_samples b ≡ length (sizes_of b))
  unfolding get_sample_size get_nr_samples
  get_sample_size_lem i h = elim (Bool-cases (b.sample_uniform_size == 0)) [
    | inl e ↦ let n = v.listed (ground arith) in rw (e, n) (ground (arith, v.number))
    | inr e ↦
        rw
          (
            e,
            v.common (ground arith),
            get_elem?-replicate i b.sample_number b.sample_uniform_size h,
            length-replicate b.sample_number b.sample_uniform_size,
          )
          (ground arith, refl)
  ]

  -- The sizes in an interval of samples add up, as uint64, to what `GetTotalSampleSize` gives, with a
  -- common size or with a list of sizes; the interval ends at a sample and before the last uint32.
  pub get_total_sample_size_lem :
      (start_nr end_nr : ℕ)
      → 1 ≤ start_nr
      → start_nr ≤ end_nr
      → end_nr ≤ b.sample_number
      → end_nr < 2 ^ 32 - 1
      → get_total_sample_size b start_nr end_nr
        ≡ some (ok (sum (take (end_nr - start_nr + 1) (drop (start_nr - 1) (sizes_of b))) % 2 ^ 64))
  unfolding get_total_sample_size
  get_total_sample_size_lem start_nr end_nr lo mid hi hw =
      elim (Bool-cases (b.sample_uniform_size == 0)) [
        | inl h ↦
            let n = v.listed (ground arith) in
            let found =
              sum_sizes_lem (end_nr - start_nr + 1) (start_nr - 1) 0 b.sample_size (omega arith)
                (omega arith) in
            rw (h, found) (ground arith)
        | inr h ↦
            let total =
              sum_of_uniform (end_nr - start_nr + 1) (start_nr - 1) b.sample_number
                b.sample_uniform_size (omega arith) in
            rw (h, total) (ground arith)
      ]
