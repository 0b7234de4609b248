-- ===== src/SampleTable/Search.antt =====
-- The binary search that stss.go, ctts.go and stsc.go each write out: the least index at which a test
-- that holds for a while no longer holds.
use mp4ff.Base.{
  ℕ, zero, suc, ◌+◌, ◌-◌, ◌/◌, ◌<◌, ◌≤◌, ◌≡◌, inl, inr, arith, Bool, true, false, ltb,
  if◌then◌else◌, Bool-cases,
}

-- `for i < j { h := (i + j) >> 1; if before(h) { i = h + 1 } else { j = h } }`, with fuel.
unfoldable pub search_from : ℕ → (ℕ → Bool) → ℕ → ℕ → ℕ
search_from zero before i j = i
search_from (suc fuel) before i j =
    let h = (i + j) / 2 in
    let right = search_from fuel before (h + 1) j in
    let left = search_from fuel before i h in
    if ltb i j then (if before h then right else left) else i

-- The range shrinks in every round, so its length is fuel enough.
unfoldable pub search_index : (ℕ → Bool) → ℕ → ℕ → ℕ
search_index before i j = search_from (j - i) before i j

-- Below `r` the test holds, and from `r` on, below `n`, it does not.
pub record IsSplit (before : ℕ → Bool) (lo n r : ℕ) : Type 0 where
  pub bounds : (lo ≤ r) × (r ≤ n)
  pub below : (a : ℕ) → lo ≤ a → a < r → before a ≡ true
  pub above : (b : ℕ) → r ≤ b → b < n → before b ≡ false

abbrev pub IsMonotone : (ℕ → Bool) → ℕ → Type 0
IsMonotone before n = (a b : ℕ) → a ≤ b → b < n → before b ≡ true → before a ≡ true

module _ (before : ℕ → Bool) (lo n : ℕ) (mono : IsMonotone before n) where
  not_before : (a b : ℕ) → a ≤ b → b < n → before a ≡ false → before b ≡ false
  not_before a b le lt h = elim (Bool-cases (before b)) [
    | inl t ↦ absurd (let f : false ≡ true = rw (← h) (mono a b le lt t) in ground arith)
    | inr f ↦ f
  ]

  search_from-IsSplit :
      (fuel i j : ℕ)
      → j - i ≤ fuel
      → lo ≤ i
      → i ≤ j
      → j ≤ n
      → ((a : ℕ) → lo ≤ a → a < i → before a ≡ true)
      → ((b : ℕ) → j ≤ b → b < n → before b ≡ false)
      → IsSplit before lo n (search_from fuel before i j)
  unfolding search_from
  search_from-IsSplit zero i j hf li ij jn below above =
      let e : i ≡ j = omega arith in
      record { bounds = (li, omega arith); below = below; above = λ b le. above b (omega arith) }
  search_from-IsSplit (suc fuel) i j hf li ij jn below above = elim (Bool-cases (ltb i j)) [
    | inl open_range ↦
        let h = (i + j) / 2 in
        let lt : i < j = ground arith in
        let hj : h < j = omega arith in
        elim (Bool-cases (before h)) [
          | inl t ↦
              rw (open_range, t)
                (search_from-IsSplit fuel (h + 1) j (omega arith) (omega arith) (omega arith) jn
                  (λ a la ai. mono a h (omega arith) (omega arith) t) above)
          | inr f ↦
              rw (open_range, f)
                (search_from-IsSplit fuel i h (omega arith) li (omega arith) (omega arith) below
                  (λ b hb bn. not_before h b hb bn f))
        ]
    | inr closed ↦
        let e : i ≡ j = ground arith in
        rw closed (record {
          bounds = (li, omega arith);
          below = below;
          above = λ b le. above b (omega arith);
        })
  ]

  -- With a test that is monotone, the search finds where it changes.
  pub search_index-IsSplit : lo ≤ n → IsSplit before lo n (search_index before lo n)
  unfolding search_index
  search_index-IsSplit le =
      search_from-IsSplit (n - lo) lo n (omega arith) (omega arith) le (omega arith)
        (λ a la ai. absurd (omega arith)) (λ b hb bn. absurd (omega arith))
