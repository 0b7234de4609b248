-- ===== src/SampleTable/Stsc/Descriptions.antt =====
-- The description ids of an stsc box: one for all entries as long as they agree, and a list from the
-- first that differs.
use mp4ff.Base.{
  ℕ, suc, ◌-◌, ◌<◌, ◌≡◌, refl, ap, inl, inr, arith, Bool, true, false, ◌&&◌, List, [], ◌∷◌, ◌++◌,
  append-nil, length, length-append, replicate, All, ◌==◌, Bool-cases, if◌then◌else◌,
}
use mp4ff.SampleTable.Stsc.{set_at, set_description, add_description}

abbrev pub all_same : ℕ → List ℕ → Bool
all_same d [] = true
all_same d (x ∷ xs) = x == d && all_same d xs

-- What a box of `count` entries keeps of the ids `p` of the first ones.
abbrev pub kept : ℕ → List ℕ → ℕ × List ℕ
kept count [] = (0, [])
kept count (d ∷ ds) =
    if all_same d ds then (d, []) else (0, (d ∷ ds) ++ replicate (count - length (d ∷ ds)) 0)

all_same-append : (d x : ℕ) (ds : List ℕ) → all_same d (ds ++ (x ∷ [])) ≡ (all_same d ds && x == d)
all_same-append d x [] = ground arith
all_same-append d x (y ∷ ds) = rw (all_same-append d x ds) (ground arith)

pub all_same-replicate : (d : ℕ) (ds : List ℕ) → all_same d ds ≡ true → replicate (length ds) d ≡ ds
all_same-replicate d [] h = refl
all_same-replicate d (x ∷ ds) h =
    let e : d ≡ x = ground arith in
    let rest = all_same-replicate d ds (ground arith) in rw rest (ap (λ y. y ∷ ds) e)

set_at-end :
    (p : List ℕ) (k v : ℕ)
    → set_at (p ++ replicate (suc k) 0) (length p) v ≡ (p ++ (v ∷ [])) ++ replicate k 0
set_at-end [] k v = refl
set_at-end (x ∷ p) k v = ap (λ xs. x ∷ xs) (set_at-end p k v)

set_at-room :
    (p : List ℕ) (count v : ℕ)
    → length p < count
    → set_at (p ++ replicate (count - length p) 0) (length p) v
      ≡ (p ++ (v ∷ [])) ++ replicate (count - length (p ++ (v ∷ []))) 0
set_at-room p count v h =
    let e : count - length p ≡ suc (count - length (p ++ (v ∷ []))) =
      omega (arith, length-append p (v ∷ [])) in
    rw e (set_at-end p (count - length (p ++ (v ∷ []))) v)

pub set_description_lem :
    (count sdi : ℕ) (p : List ℕ)
    → All (λ d. 0 < d) p
    → 0 < sdi
    → length p < count
    → set_description count (length p) sdi (kept count p) ≡ kept count (p ++ (sdi ∷ []))
unfolding set_description
set_description_lem count sdi [] a h lt = refl
set_description_lem count sdi (d ∷ ds) a h lt =
    let more : (suc (length ds) == 0) ≡ false = ground arith in
    let d_set : (d == 0) ≡ false = ground (arith, a.0) in
    let sdi_set : (sdi == 0) ≡ false = ground arith in
    let room = set_at-room (d ∷ ds) count sdi lt in
    elim (Bool-cases (all_same d ds)) [
      | inl same ↦ elim (Bool-cases (sdi == d)) [
        | inl e ↦ rw (all_same-append d sdi ds, same, more, e)
        | inr e ↦
            rw (all_same-append d sdi ds, same, more, e, d_set, all_same-replicate d ds same)
              (ap (λ xs. (0, xs)) room)
      ]
      | inr differ ↦ rw (all_same-append d sdi ds, differ, more, sdi_set) (ap (λ xs. (0, xs)) room)
    ]

add_description_full :
    (sdi d : ℕ) (ds : List ℕ)
    → All (λ x. 0 < x) (d ∷ ds)
    → 0 < sdi
    → add_description (length (d ∷ ds)) sdi (kept (length (d ∷ ds)) (d ∷ ds))
      ≡ kept (length (d ∷ ds ++ (sdi ∷ []))) (d ∷ ds ++ (sdi ∷ []))
unfolding add_description
add_description_full sdi d ds a h =
    let d_set : (d == 0) ≡ false = ground (arith, a.0) in
    let sdi_set : (sdi == 0) ≡ false = ground arith in
    let full₁ : suc (length ds) - suc (length ds) ≡ 0 = omega arith in
    let full₂ : suc (length (ds ++ (sdi ∷ []))) - suc (length (ds ++ (sdi ∷ []))) ≡ 0 =
      omega arith in
    elim (Bool-cases (all_same d ds)) [
      | inl same ↦ elim (Bool-cases (sdi == d)) [
        | inl e ↦ rw (all_same-append d sdi ds, same, e)
        | inr e ↦ rw (
          all_same-append d sdi ds,
          same,
          e,
          d_set,
          full₂,
          all_same-replicate d ds same,
          append-nil,
        )
      ]
      | inr differ ↦ rw (all_same-append d sdi ds, differ, sdi_set, full₁, full₂) (simp append-nil)
    ]

-- The counts are those of the ids before and after.
pub add_description_lem :
    (n m sdi d : ℕ) (ds : List ℕ)
    → n ≡ length (d ∷ ds)
    → m ≡ length (d ∷ ds ++ (sdi ∷ []))
    → All (λ x. 0 < x) (d ∷ ds)
    → 0 < sdi
    → add_description n sdi (kept n (d ∷ ds)) ≡ kept m (d ∷ ds ++ (sdi ∷ []))
add_description_lem n m sdi d ds e₁ e₂ a h = rw (e₁, e₂) (add_description_full sdi d ds a h)
