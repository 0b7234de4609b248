-- ===== src/Crypto/Ranges.antt =====
-- What patterns say of the single bytes of a sample, and what an appended range adds to them.
use mp4ff.Base.{
  ℕ, zero, suc, ◌+◌, ◌-◌, ◌%◌, ◌^◌, ◌≤◌, ◌≡◌, refl, ap, ◌∙◌, sym, arith, Bool, true, false, [], ◌∷◌,
  ◌++◌, List, leb, replicate, All, append_assoc, append-nil, Bool-cases, inl, inr, ◌⊎◌,
}
use mp4ff.Base.Words.{IsUint16}
use mp4ff.Crypto.{SubSamplePattern, subsample, split_clear, append_protect_range}

-- Whether each byte is protected.
unfoldable pub marks : List SubSamplePattern → List Bool
marks [] = []
marks (ss ∷ sss) =
    replicate ss.bytes_of_clear_data false
    ++ (replicate ss.bytes_of_protected_data true ++ marks sss)

marks-append : (xs ys : List SubSamplePattern) → marks (xs ++ ys) ≡ marks xs ++ marks ys
unfolding marks
marks-append [] ys = refl
marks-append (x ∷ xs) ys =
    let cs = replicate x.bytes_of_clear_data false in
    let ps = replicate x.bytes_of_protected_data true in
    rw (
      marks-append xs ys,
      append_assoc cs (ps ++ marks xs) (marks ys),
      append_assoc ps (marks xs) (marks ys),
    )

pub replicate-add {ℓ} :
    {A : Type ℓ} (m n : ℕ) (a : A) → replicate (m + n) a ≡ replicate m a ++ replicate n a
replicate-add zero n a = let e : 0 + n ≡ n = omega arith in rw e
replicate-add (suc m) n a =
    let e : suc m + n ≡ suc (m + n) = omega arith in rw (e, replicate-add m n a)

-- A split pattern, and the bytes behind it.
join_clear :
    (k n c r : ℕ) (ms : List Bool)
    → k + n ≡ c
    → ms ++ replicate r false ≡ replicate n false
    → (replicate k false ++ ([] ++ ms)) ++ replicate r false ≡ replicate c false
join_clear k n c r ms h e =
    append_assoc (replicate k false) ms (replicate r false)
    ∙ ap (◌++◌ (replicate k false)) e
    ∙ sym (replicate-add k n false)
    ∙ ap (λ x. replicate x false) h

record IsSplit (c : ℕ) (split : List SubSamplePattern × ℕ) : Type 0 where
  same_marks : marks split.0 ++ replicate split.1 false ≡ replicate c false
  small_rest : IsUint16 split.1
  small_all : All (λ ss. IsUint16 ss.bytes_of_clear_data) split.0

split_clear-IsSplit : (fuel c : ℕ) → c ≤ fuel → IsSplit c (split_clear fuel c)
unfolding split_clear marks
split_clear-IsSplit zero c h = record {
  same_marks = refl;
  small_rest = omega arith;
  small_all = tt;
}
split_clear-IsSplit (suc fuel) c h =
    let rest = split_clear-IsSplit fuel (c - 65535) (omega arith) in
    go (Bool-cases (leb 65536 c)) rest
  where
    go :
        (leb 65536 c ≡ true) ⊎ (leb 65536 c ≡ false)
        → IsSplit (c - 65535) (split_clear fuel (c - 65535))
        → IsSplit c (split_clear (suc fuel) c)
    go (inl big) rest = rw big (record {
      same_marks = join_clear 65535 (c - 65535) c _ _ (ground (arith, big)) rest.same_marks;
      small_rest = rest.small_rest;
      small_all = (omega arith, rest.small_all);
    })
    go (inr small) rest =
        rw small (record { same_marks = refl; small_rest = ground (arith, small); small_all = tt })

-- An appended range.
marks-one :
    (split : List SubSamplePattern) (c r p : ℕ)
    → marks split ++ replicate r false ≡ replicate c false
    → marks (split ++ (subsample r p ∷ [])) ≡ replicate c false ++ replicate p true
unfolding marks
marks-one split c r p h =
    marks-append split (subsample r p ∷ [])
    ∙ ap (λ x. marks split ++ (replicate r false ++ x)) (append-nil (replicate p true))
    ∙ sym (append_assoc (marks split) (replicate r false) (replicate p true))
    ∙ ap (λ x. x ++ replicate p true) h

All-append :
    (xs ys : List SubSamplePattern)
    → All (λ ss. IsUint16 ss.bytes_of_clear_data) xs
    → All (λ ss. IsUint16 ss.bytes_of_clear_data) ys
    → All (λ ss. IsUint16 ss.bytes_of_clear_data) (xs ++ ys)
All-append [] ys h k = k
All-append (x ∷ xs) ys h k = (h.0, All-append xs ys h.1 k)

-- Appending a range marks the bytes behind those of the patterns: first all its clear bytes, however
-- many patterns these take, then all its protected bytes.
pub append_protect_range-marks :
    (ssps : List SubSamplePattern) (nr_clear nr_protected : ℕ)
    → marks (append_protect_range ssps nr_clear nr_protected)
      ≡ marks ssps ++ (replicate nr_clear false ++ replicate nr_protected true)
unfolding append_protect_range
append_protect_range-marks ssps c p =
    let s = split_clear-IsSplit c c (omega arith) in
    let kept : (split_clear c c).1 % 2 ^ 16 ≡ (split_clear c c).1 = omega (arith, s.small_rest) in
    ap marks (append_assoc ssps _ _)
    ∙ marks-append ssps _
    ∙ ap (◌++◌ (marks ssps)) (marks-one _ c _ p (rw kept s.same_marks))

-- The clear bytes of every pattern fit the 16 bits that they are stored in, if those of the patterns
-- before them did, however many clear bytes the appended range has; and the conversion to 16 bits of what
-- the loop leaves changes nothing.
pub append_protect_range-bounds :
    (ssps : List SubSamplePattern) (nr_clear nr_protected : ℕ)
    → All (λ ss. IsUint16 ss.bytes_of_clear_data) ssps
    → All (λ ss. IsUint16 ss.bytes_of_clear_data) (append_protect_range ssps nr_clear nr_protected)
      × ((split_clear nr_clear nr_clear).1 % 2 ^ 16 ≡ (split_clear nr_clear nr_clear).1)
unfolding append_protect_range
append_protect_range-bounds ssps c p h =
    let s = split_clear-IsSplit c c (omega arith) in
    (
      All-append (ssps ++ (split_clear c c).0) _ (All-append ssps _ h s.small_all)
          (omega arith, tt),
      omega (arith, s.small_rest),
    )
