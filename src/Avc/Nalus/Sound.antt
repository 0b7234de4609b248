-- ===== src/Avc/Nalus/Sound.antt =====
-- Whatever `GetNalusFromSample` accepts is made of the NAL units that it gives.
use mp4ff.Base.{
  ℕ, zero, suc, ◌+◌, ◌-◌, ◌*◌, ◌/◌, ◌%◌, ◌^◌, ◌<◌, ◌≤◌, ◌≡◌, refl, sym, ap, ◌∙◌, inl, inr, arith,
  Option, none, some, List, [], ◌∷◌, ◌++◌, append_assoc, Bytes, IsByte, All, length, length-take,
  length-drop, take, drop, take-append-drop, ltb, Bool-cases,
}
use mp4ff.Base.Words.{be_bytes, be_value, IsUint32}
use mp4ff.Base.Action.{Result, ok, err}
use mp4ff.Avc.Nalus.{prepend, length_field, nalus_loop, get_nalus_from_sample}
use mp4ff.Avc.Nalus.RoundTrip.{with_length, sample_of}

module _ (P : ℕ → Type 0) where
  All-take : (n : ℕ) (xs : Bytes) → All P xs → All P (take n xs)
  All-take zero xs a = tt
  All-take (suc n) [] a = tt
  All-take (suc n) (x ∷ xs) a = (a.0, All-take n xs a.1)

  All-drop : (n : ℕ) (xs : Bytes) → All P xs → All P (drop n xs)
  All-drop zero xs a = a
  All-drop (suc n) [] a = tt
  All-drop (suc n) (x ∷ xs) a = All-drop n xs a.1

drop-drop : (m n k : ℕ) (xs : Bytes) → k ≡ m + n → drop n (drop m xs) ≡ drop k xs
drop-drop zero n k xs e = let e' : n ≡ k = omega arith in ap (λ i. drop i xs) e'
drop-drop (suc m) zero zero [] e = refl
drop-drop (suc m) (suc n) zero [] e = refl
drop-drop (suc m) zero (suc k) [] e = refl
drop-drop (suc m) (suc n) (suc k) [] e = refl
drop-drop (suc m) n zero (x ∷ xs) e = absurd (omega arith)
drop-drop (suc m) n (suc k) (x ∷ xs) e = drop-drop m n k xs (omega arith)

-- Four bytes are the length that they encode.
be_bytes-be_value : (bs : Bytes) → length bs ≡ 4 → All IsByte bs → be_bytes 4 (be_value 0 bs) ≡ bs
unfolding be_bytes
be_bytes-be_value (a ∷ b ∷ c ∷ d ∷ []) h v =
    let (ha, (hb, (hc, (hd, _)))) = v in
    let value = (((0 + a) * 256 + b) * 256 + c) * 256 + d in
    let e₁ : value / 16777216 % 256 ≡ a = omega arith in
    let e₂ : value / 65536 % 256 ≡ b = omega arith in
    let e₃ : value / 256 % 256 ≡ c = omega arith in
    let e₄ : value / 1 % 256 ≡ d = omega arith in rw (e₁, e₂, e₃, e₄)
be_bytes-be_value [] h v = absurd (omega arith)
be_bytes-be_value (a ∷ []) h v = absurd (omega arith)
be_bytes-be_value (a ∷ b ∷ []) h v = absurd (omega arith)
be_bytes-be_value (a ∷ b ∷ c ∷ []) h v = absurd (omega arith)
be_bytes-be_value (a ∷ b ∷ c ∷ d ∷ e ∷ es) h v = absurd (omega arith)

be_value-lt : (bs : Bytes) → length bs ≡ 4 → All IsByte bs → be_value 0 bs < 2 ^ 32
be_value-lt (a ∷ b ∷ c ∷ d ∷ []) h v = let (ha, (hb, (hc, (hd, _)))) = v in omega arith
be_value-lt [] h v = absurd (omega arith)
be_value-lt (a ∷ []) h v = absurd (omega arith)
be_value-lt (a ∷ b ∷ []) h v = absurd (omega arith)
be_value-lt (a ∷ b ∷ c ∷ []) h v = absurd (omega arith)
be_value-lt (a ∷ b ∷ c ∷ d ∷ e ∷ es) h v = absurd (omega arith)

abbrev nalus_of : Option (Result (List Bytes)) → List Bytes
nalus_of (some (ok nalus)) = nalus
nalus_of _ = []

prepend-ok :
    (nalu : Bytes) (r : Option (Result (List Bytes))) (nalus : List Bytes)
    → prepend nalu r ≡ some (ok nalus)
    → (rest : List Bytes) × (r ≡ some (ok rest)) × (nalus ≡ nalu ∷ rest)
prepend-ok nalu none nalus h = absurd (ground arith)
prepend-ok nalu (some (err e)) nalus h = absurd (ground arith)
prepend-ok nalu (some (ok rest)) nalus h = (rest, refl, sym (ap nalus_of h))

-- The bytes of one round: a length, as many bytes, and what follows.
module _ (sample : Bytes) (pos : ℕ) (small : IsUint32 (length sample)) (bytes : All IsByte sample)
    (more : pos + 4 < length sample) where
  field-lt : length_field sample pos < 2 ^ 32
  field-lt =
      be_value-lt (take 4 (drop pos sample))
        (omega (arith, length-take 4 (drop pos sample), length-drop pos sample))
        (All-take IsByte 4 (drop pos sample) (All-drop IsByte pos sample bytes))

  field_lem : be_bytes 4 (length_field sample pos) ≡ take 4 (drop pos sample)
  field_lem =
      be_bytes-be_value (take 4 (drop pos sample))
        (omega (arith, length-take 4 (drop pos sample), length-drop pos sample))
        (All-take IsByte 4 (drop pos sample) (All-drop IsByte pos sample bytes))

  round_lem :
      pos + 4 + length_field sample pos ≤ length sample
      → drop pos sample
        ≡ with_length (take (length_field sample pos) (drop (pos + 4) sample))
          ++ drop (pos + 4 + length_field sample pos) sample
  round_lem within =
      let n = length_field sample pos in
      let nalu = take n (drop (pos + 4) sample) in
      let size : length nalu ≡ n =
        omega (arith, length-take n (drop (pos + 4) sample), length-drop (pos + 4) sample) in
      let front = take-append-drop 4 (drop pos sample) in
      let back = take-append-drop n (drop (pos + 4) sample) in
      let later = drop-drop (pos + 4) n (pos + 4 + n) sample refl in
      let inner = drop-drop pos 4 (pos + 4) sample refl in
      let back' = rw later at back in
      let front' = rw (inner, ← field_lem, ← back') at front in
      sym front' ∙ rw size (sym (append_assoc (be_bytes 4 n) nalu (drop (pos + 4 + n) sample)))

  -- What is found behind a round makes up the rest.
  join :
      (rest nalus : List Bytes) (tail : Bytes)
      → pos + 4 + length_field sample pos ≤ length sample
      → nalus ≡ take (length_field sample pos) (drop (pos + 4) sample) ∷ rest
      → drop (pos + 4 + length_field sample pos) sample ≡ sample_of rest ++ tail
      → drop pos sample ≡ sample_of nalus ++ tail
  join rest nalus tail within e d =
      let nalu = take (length_field sample pos) (drop (pos + 4) sample) in
      round_lem within
      ∙ ap (λ bs. with_length nalu ++ bs) d
      ∙ sym (append_assoc (with_length nalu) (sample_of rest) tail)
      ∙ sym (ap (λ ns. sample_of ns ++ tail) e)

sound :
    (fuel : ℕ) (sample : Bytes) (pos : ℕ) (nalus : List Bytes)
    → IsUint32 (length sample)
    → All IsByte sample
    → pos ≤ length sample
    → 4 ≤ length sample
    → nalus_loop fuel sample pos ≡ some (ok nalus)
    → (tail : Bytes) × (drop pos sample ≡ sample_of nalus ++ tail) × (length tail ≤ 4)
unfolding nalus_loop
sound zero sample pos nalus h v l four e = absurd (ground arith)
sound (suc fuel) sample pos nalus h v l four e =
    let n = length_field sample pos in
    let start = (pos + 4) % 2 ^ 32 in
    let stop = (start + n) % 2 ^ 32 in
    elim (Bool-cases (ltb pos ((length sample - 4) % 2 ^ 32))) [
      | inr done ↦
          let e' = rw done at e in
          let none_left : [] ≡ nalus = ap nalus_of e' in
          (drop pos sample, rw (← none_left) refl, (ground (arith, length-drop pos sample)))
      | inl more ↦ elim (Bool-cases (ltb (length sample) stop)) [
        | inl over ↦ absurd (let e' = rw (more, over) at e in ground (arith, e'))
        | inr within ↦ elim (Bool-cases (ltb stop start)) [
          | inl back ↦ absurd (let e' = rw (more, within, back) at e in ground (arith, e'))
          | inr on ↦
              let room : pos + 4 < length sample = ground arith in
              let field = field-lt sample pos h v room in
              let here : start ≡ pos + 4 = omega arith in
              let no_wrap : (pos + 4 + n) % 2 ^ 32 ≡ pos + 4 + n = ground arith in
              let size : pos + 4 + n - (pos + 4) ≡ n = omega arith in
              let inside : pos + 4 + n ≤ length sample = ground arith in
              let e' = rw (more, within, on) at e in
              let e'' = rw (here, no_wrap, size) at e' in
              let (rest, e₁, e₂) = prepend-ok _ _ nalus e'' in
              let (tail, d, short) = sound fuel sample (pos + 4 + n) rest h v inside four e₁ in
              (tail, join sample pos h v room rest nalus tail inside e₂ d, short)
        ]
      ]
    ]

-- Whatever `GetNalusFromSample` accepts is its NAL units, each behind its length in 4 bytes, in order,
-- with at most 4 bytes behind them that are passed over. The sample is of fewer than 2^32 bytes.
pub get_nalus_from_sample_sound :
    (sample : Bytes) (nalus : List Bytes)
    → IsUint32 (length sample)
    → All IsByte sample
    → get_nalus_from_sample sample ≡ some (ok nalus)
    → (tail : Bytes) × (sample ≡ sample_of nalus ++ tail) × (length tail ≤ 4)
unfolding get_nalus_from_sample
get_nalus_from_sample_sound sample nalus h v e = elim (Bool-cases (ltb (length sample) 4)) [
  | inl short ↦ absurd (let e' = rw short at e in ground (arith, e'))
  | inr long ↦
      let e' = rw long at e in
      sound (suc (length sample)) sample 0 nalus h v (omega arith) (ground arith) e'
]
