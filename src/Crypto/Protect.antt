-- ===== src/Crypto/Protect.antt =====
-- The change of the protected bytes of a sample alone, as the loops over the patterns make it, and
-- how one that is undone on every range is undone on the sample.
use mp4ff.Base.{
  ℕ, ◌+◌, ◌%◌, ◌^◌, length_eq_zero, Bool-cases, inl, inr, ltb, ◌-◌, ◌≤◌, ◌<◌, ◌≡◌, refl, ap, ◌∙◌,
  sym, arith, [], ◌∷◌, ◌++◌, List, Bytes, take, drop, length, length-append, length-take,
  length-drop, take-length_append, drop-length_append, take-append-drop, append_assoc, leb-true,
}
use mp4ff.Base.Action.{Result, ok}
use mp4ff.Crypto.{SubSamplePattern, in_place, range_loop}

unfoldable pub total : List SubSamplePattern → ℕ
total [] = 0
total (ss ∷ sss) = ss.bytes_of_clear_data + (ss.bytes_of_protected_data + total sss)

-- `f used` is the change of a range with `used` protected bytes before it.
unfoldable pub protect : (ℕ → Bytes → Bytes) → ℕ → List SubSamplePattern → Bytes → Bytes
protect f used [] rest = rest
protect f used (ss ∷ sss) rest =
    let c = ss.bytes_of_clear_data in
    let p = ss.bytes_of_protected_data in
    take c rest
    ++ (f used (take p (drop c rest)) ++ protect f (used + p) sss (drop p (drop c rest)))

abbrev pub KeepsLength : (ℕ → Bytes → Bytes) → Type 0
KeepsLength f = (used : ℕ) (bs : Bytes) → length (f used bs) ≡ length bs

pub cut_at :
    (n : ℕ) (xs ys : Bytes) → length xs ≡ n → (take n (xs ++ ys) ≡ xs) × (drop n (xs ++ ys) ≡ ys)
cut_at n xs ys h = rw (sym h) (take-length_append xs ys, drop-length_append xs ys)

pub length-protect :
    (f : ℕ → Bytes → Bytes) (used : ℕ) (sss : List SubSamplePattern) (rest : Bytes)
    → KeepsLength f
    → length (protect f used sss rest) ≡ length rest
unfolding protect
length-protect f used [] rest k = refl
length-protect f used (ss ∷ sss) rest k =
    let c = ss.bytes_of_clear_data in
    let p = ss.bytes_of_protected_data in
    let mid = f used (take p (drop c rest)) in
    let back = drop p (drop c rest) in
    omega (
      arith,
      length-append (take c rest) (mid ++ protect f (used + p) sss back),
      length-append mid (protect f (used + p) sss back),
      k used (take p (drop c rest)),
      length-protect f (used + p) sss back k,
      length-take c rest,
      length-take p (drop c rest),
      length-drop c rest,
      length-drop p (drop c rest),
    )

-- One range that lies behind `front`.
in_place-range :
    (run : Bytes → Result Bytes) (lo hi : ℕ) (front mid out back : Bytes)
    → run mid ≡ ok out
    → length front ≡ lo
    → length front + length mid ≡ hi
    → in_place run lo hi (front ++ (mid ++ back)) ≡ ok ((front ++ out) ++ back)
unfolding in_place
in_place-range run lo hi front mid out back r h k =
    let (e1, e2) = cut_at lo front (mid ++ back) h in
    let (e3, e4) = cut_at (hi - lo) mid back (omega arith) in
    let (e5, e6) = cut_at hi (front ++ mid) back (omega (arith, length-append front mid)) in
    let size = length-append front (mid ++ back) in
    let size' = length-append mid back in
    let ordered = leb-true lo hi (omega arith) in
    let within = leb-true hi (length (front ++ (mid ++ back))) (omega arith) in
    let behind : drop hi (front ++ (mid ++ back)) ≡ back =
      ap (drop hi) (sym (append_assoc front mid back)) ∙ e6 in
    rw (ordered, within, e2, e3, r, e1, behind)

join_range :
    (front clear mid back : Bytes)
    → ((front ++ clear) ++ mid) ++ back ≡ front ++ (clear ++ (mid ++ back))
join_range front clear mid back =
    append_assoc (front ++ clear) mid back ∙ append_assoc front clear (mid ++ back)

length-clear :
    (c p pos : ℕ) (front rest : Bytes)
    → length front ≡ pos
    → c + p ≤ length rest
    → (length (front ++ take c rest) ≡ pos + c) × (length (take p (drop c rest)) ≡ p)
length-clear c p pos front rest h k = (
  omega (arith, length-append front (take c rest), length-take c rest),
  omega (arith, length-take p (drop c rest), length-drop c rest),
)

length-back : (c p : ℕ) (rest : Bytes) → length (drop p (drop c rest)) ≡ length rest - c - p
length-back c p rest = omega (arith, length-drop c rest, length-drop p (drop c rest))

abbrev kept : ℕ → Bytes → Bytes
kept used bs = bs

protect-kept :
    (used : ℕ) (sss : List SubSamplePattern) (rest : Bytes) → protect kept used sss rest ≡ rest
unfolding protect
protect-kept used [] rest = refl
protect-kept used (ss ∷ sss) rest =
    let c = ss.bytes_of_clear_data in
    let p = ss.bytes_of_protected_data in
    rw (protect-kept (used + p) sss (drop p (drop c rest)))
      (ap (◌++◌ (take c rest)) (take-append-drop p (drop c rest)) ∙ take-append-drop c rest)

-- The loop over the patterns, on ranges that `f` gives, where `crypt` turns them to what `g` gives.
module _ (f g : ℕ → Bytes → Bytes) (crypt : ℕ → Bytes → Result Bytes) (keeps : KeepsLength f)
    (keeps' : KeepsLength g)
    (agree : (used : ℕ) (bs : Bytes) → crypt used (f used bs) ≡ ok (g used bs)) where
  loop_maps :
      (used pos : ℕ) (sss : List SubSamplePattern) (front rest : Bytes)
      → length front ≡ pos
      → total sss ≤ length rest
      → length front + length rest < 2 ^ 32
      → range_loop crypt used pos sss (front ++ protect f used sss rest)
        ≡ ok (front ++ protect g used sss rest)
  unfolding range_loop protect total
  loop_maps used pos [] front rest h t b = refl
  loop_maps used pos (ss ∷ sss) front rest h t b =
      let c = ss.bytes_of_clear_data in
      let p = ss.bytes_of_protected_data in
      let clear = take c rest in
      let mid = take p (drop c rest) in
      let back = drop p (drop c rest) in
      let (e1, e2) = length-clear c p pos front rest h (omega arith) in
      let start : (pos + c) % 2 ^ 32 ≡ pos + c = omega arith in
      let stop : (pos + c + p) % 2 ^ 32 ≡ pos + c + p = omega arith in
      let e3 = length-back c p rest in
      let e4 = length-append (front ++ clear) (g used mid) in
      let e5 = keeps used mid in
      let e6 = keeps' used mid in
      let range =
        in_place-range (crypt used) (pos + c) (pos + c + p) (front ++ clear) (f used mid)
          (g used mid) (protect f (used + p) sss back) (agree used mid) e1 (omega arith) in
      let rec =
        loop_maps (used + p) (pos + c + p) sss ((front ++ clear) ++ g used mid) back (omega arith)
          (omega arith) (omega arith) in
      let clear_only =
        loop_maps used (pos + c) sss (front ++ clear) (drop c rest) e1
          (omega (arith, length-drop c rest)) (omega (arith, e1, length-drop c rest)) in
      rw (sym (append_assoc front clear (f used mid ++ protect f (used + p) sss back)), start, stop)
        (elim (Bool-cases (ltb 0 p)) [
          | inl some_protected ↦
              rw (some_protected, range, start, stop)
                (rec ∙ ap ok (join_range front clear (g used mid) _))
          | inr none_protected ↦
              let none : mid ≡ [] = length_eq_zero mid (ground (arith, none_protected)) in
              let all : back ≡ drop c rest = rw none at (take-append-drop p (drop c rest)) in
              let still : pos + c + p ≡ pos + c = ground (arith, none_protected) in
              let nothing : f used [] ≡ [] = length_eq_zero (f used []) (keeps used []) in
              let nothing' : g used [] ≡ [] = length_eq_zero (g used []) (keeps' used []) in
              let same : used + p ≡ used = ground (arith, none_protected) in
              rw (none_protected, still, none, all, same, nothing, nothing')
                (clear_only ∙ ap ok (append_assoc front clear _))
        ])

-- The loop changes the protected bytes alone, and reports no error, if the patterns lie within the
-- sample; a loop that undoes every range undoes what it changed.
module _ (f : ℕ → Bytes → Bytes) (crypt : ℕ → Bytes → Result Bytes) (keeps : KeepsLength f)
    (sss : List SubSamplePattern) (sample : Bytes) (within : total sss ≤ length sample)
    (fits : length sample < 2 ^ 32) where
  pub loop_protects :
      ((used : ℕ) (bs : Bytes) → crypt used bs ≡ ok (f used bs))
      → range_loop crypt 0 0 sss sample ≡ ok (protect f 0 sss sample)
  loop_protects agree =
      ap (range_loop crypt 0 0 sss) (sym (protect-kept 0 sss sample))
      ∙ loop_maps kept f crypt (λ used bs. refl) keeps agree 0 0 sss [] sample refl within
          (omega arith)

  pub loop_undoes :
      ((used : ℕ) (bs : Bytes) → crypt used (f used bs) ≡ ok bs)
      → range_loop crypt 0 0 sss (protect f 0 sss sample) ≡ ok sample
  loop_undoes agree =
      loop_maps f kept crypt keeps (λ used bs. refl) agree 0 0 sss [] sample refl within
        (omega arith)
      ∙ ap ok (protect-kept 0 sss sample)
