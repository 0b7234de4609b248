-- ===== src/SampleTable/Stss/Lookup.antt =====
-- `IsSyncSample` of mp4/stss.go decides membership in a sorted table.
use mp4ff.Base.{
  ℕ, zero, suc, ◌<◌, ◌≤◌, ◌≡◌, ◌↔◌, inl, inr, refl, ◌∙◌, arith, true, ◌&&◌, some, List, [], ◌∷◌,
  length, get_elem?, get_or, All, ltb, ◌==◌, Bool-cases,
}
use mp4ff.SampleTable.Search.{search_index, IsSplit, search_index-IsSplit}
use mp4ff.SampleTable.Stss.{StssBox, is_sync_sample}

abbrev pub IsSorted : List ℕ → Type 0
IsSorted [] = Unit
IsSorted (x ∷ xs) = All (λ y. x ≤ y) xs × IsSorted xs

All-get_or : (x i : ℕ) (xs : List ℕ) → All (λ y. x ≤ y) xs → i < length xs → x ≤ get_or xs i 0
All-get_or x i [] a h = absurd (omega arith)
All-get_or x zero (y ∷ ys) a h = a.0
All-get_or x (suc i) (y ∷ ys) a h = All-get_or x i ys a.1 (omega arith)

IsSorted-get_or :
    (a b : ℕ) (xs : List ℕ) → IsSorted xs → a ≤ b → b < length xs → get_or xs a 0 ≤ get_or xs b 0
IsSorted-get_or a b [] s le h = absurd (omega arith)
IsSorted-get_or zero zero (x ∷ xs) s le h = omega arith
IsSorted-get_or zero (suc b) (x ∷ xs) s le h = All-get_or x b xs s.0 (omega arith)
IsSorted-get_or (suc a) zero (x ∷ xs) s le h = absurd (omega arith)
IsSorted-get_or (suc a) (suc b) (x ∷ xs) s le h =
    IsSorted-get_or a b xs s.1 (omega arith) (omega arith)

get_elem?-get_or : (i : ℕ) (xs : List ℕ) → i < length xs → get_elem? xs i ≡ some (get_or xs i 0)
get_elem?-get_or i [] h = absurd (omega arith)
get_elem?-get_or zero (x ∷ xs) h = refl
get_elem?-get_or (suc i) (x ∷ xs) h = get_elem?-get_or i xs (omega arith)

get_elem?-some :
    (i : ℕ) (xs : List ℕ) {v : ℕ} → get_elem? xs i ≡ some v → (i < length xs) × (get_or xs i 0 ≡ v)
get_elem?-some i [] h = absurd (ground arith)
get_elem?-some zero (x ∷ xs) h = (omega arith, ground arith)
get_elem?-some (suc i) (x ∷ xs) h = let (lt, e) = get_elem?-some i xs h in (omega (arith, lt), e)

-- The index that the search gives, of which only this is used.
module _ (xs : List ℕ) (v r : ℕ) (sorted : IsSorted xs) where
  hit→mem : (ltb r (length xs) && get_or xs r 0 == v) ≡ true → get_elem? xs r ≡ some v
  hit→mem h =
      let lt : r < length xs = ground arith in
      let e : get_or xs r 0 ≡ v = ground arith in get_elem?-get_or r xs lt ∙ rw e

  mem→hit :
      (i : ℕ)
      → IsSplit (λ h. ltb (get_or xs h 0) v) 0 (length xs) r
      → get_elem? xs i ≡ some v
      → (ltb r (length xs) && get_or xs r 0 == v) ≡ true
  mem→hit i split m =
      let (lt, e) = get_elem?-some i xs m in
      let le : r ≤ i = elim (Bool-cases (ltb i r)) [
        | inl h ↦ absurd (let t = split.below i (omega arith) (ground arith) in ground arith)
        | inr h ↦ ground arith
      ] in
      let up = split.above r (omega arith) (omega arith) in
      let mono = IsSorted-get_or r i xs sorted le lt in ground (arith, up, mono)

module _ (b : StssBox) (sample_nr : ℕ) (sorted : IsSorted b.sample_number) where
  index : ℕ
  index = search_index (λ h. ltb (get_or b.sample_number h 0) sample_nr) 0 (length b.sample_number)

  index-IsSplit :
      IsSplit (λ h. ltb (get_or b.sample_number h 0) sample_nr) 0 (length b.sample_number) index
  unfolding index
  index-IsSplit =
      search_index-IsSplit _ 0 (length b.sample_number)
        (λ x y le lt h. ground (arith, IsSorted-get_or x y b.sample_number sorted le lt))
        (omega arith)

  sync→mem :
      is_sync_sample b sample_nr ≡ true → (i : ℕ) × (get_elem? b.sample_number i ≡ some sample_nr)
  unfolding is_sync_sample index
  sync→mem h = (index, hit→mem b.sample_number sample_nr index sorted h)

  mem→sync :
      (i : ℕ) → get_elem? b.sample_number i ≡ some sample_nr → is_sync_sample b sample_nr ≡ true
  unfolding is_sync_sample index
  mem→sync i e = mem→hit b.sample_number sample_nr index sorted i index-IsSplit e

-- In a table in ascending order, `IsSyncSample` says of a number exactly whether the table has it.
pub is_sync_sample_iff :
    (b : StssBox) (sample_nr : ℕ)
    → IsSorted b.sample_number
    → (is_sync_sample b sample_nr ≡ true)
      ↔ ((i : ℕ) × (get_elem? b.sample_number i ≡ some sample_nr))
is_sync_sample_iff b sample_nr sorted =
    (sync→mem b sample_nr sorted, λ m. mem→sync b sample_nr sorted m.0 m.1)
