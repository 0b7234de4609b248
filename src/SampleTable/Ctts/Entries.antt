-- ===== src/SampleTable/Ctts/Entries.antt =====
-- The box that holds a list of runs, and runs added behind it.
use mp4ff.Base.{
  ℕ, suc, ◌+◌, ◌%◌, ◌^◌, ◌≡◌, ◌≢◌, refl, ap, arith, false, List, [], ◌∷◌, ◌++◌, map, length,
  length-map, ◌==◌, ==_self,
}
use mp4ff.Base.Int.{ℤ}
use mp4ff.Base.Action.{ok, err, counts_differ}
use mp4ff.SampleTable.Ctts.{CttsBox, running_ends, last_or, add_sample_counts_and_offset}

-- The box with runs of a count and an offset.
abbrev pub ctts_of : ℕ → ℕ → List (ℕ × ℤ) → CttsBox
ctts_of version flags entries = record {
  version = version;
  flags = flags;
  end_sample_nr = 0 ∷ running_ends 0 (map (λ e. e.0) entries);
  sample_offset = map (λ e. e.1) entries;
}

running_ends-append :
    (e : ℕ) (cs ds : List ℕ)
    → running_ends e (cs ++ ds)
      ≡ running_ends e cs ++ running_ends (last_or e (running_ends e cs)) ds
unfolding running_ends
running_ends-append e [] ds = refl
running_ends-append e (c ∷ cs) ds =
    ap (λ xs. (e + c) % 2 ^ 32 ∷ xs) (running_ends-append ((e + c) % 2 ^ 32) cs ds)

map-append :
    {A : Type 0} (f : ℕ × ℤ → A) (xs ys : List (ℕ × ℤ)) → map f (xs ++ ys) ≡ map f xs ++ map f ys
map-append f [] ys = refl
map-append f (x ∷ xs) ys = ap (◌∷◌ (f x)) (map-append f xs ys)

-- Adding as many counts as offsets puts their runs behind those of the box, whether there were any or
-- not; lists of counts and offsets that differ in length, whichever is longer, are an error for any box.
pub add_sample_counts_and_offset_lem :
    (version flags : ℕ) (entries new : List (ℕ × ℤ)) (b : CttsBox) (counts : List ℕ)
    (offsets : List ℤ)
    → length counts ≢ length offsets
    → (add_sample_counts_and_offset
          (ctts_of version flags entries)
          (map (λ e. e.0) new)
          (map (λ e. e.1) new)
        ≡ ok (ctts_of version flags (entries ++ new)))
      × (add_sample_counts_and_offset
            (record { version = version; flags = flags; end_sample_nr = []; sample_offset = [] })
            (map (λ e. e.0) new)
            (map (λ e. e.1) new)
          ≡ ok (ctts_of version flags new))
      × (add_sample_counts_and_offset b counts offsets ≡ err counts_differ)
unfolding add_sample_counts_and_offset
add_sample_counts_and_offset_lem version flags entries new b counts offsets differ =
    let n₁ = length-map new (λ (e : ℕ × ℤ). e.0) in
    let n₂ = length-map new (λ (e : ℕ × ℤ). e.1) in
    let old = map (λ (e : ℕ × ℤ). e.0) entries in
    let other : (length counts == length offsets) ≡ false = ground arith in
    let there : (suc (length (running_ends 0 old)) == 0) ≡ false = ground arith in
    let split₁ = map-append (λ e. e.0) entries new in
    let split₂ = map-append (λ e. e.1) entries new in
    (
      rw (n₁, n₂, ==_self, there, split₁, split₂, running_ends-append 0 old),
      rw (n₁, n₂, ==_self),
      rw other,
    )
