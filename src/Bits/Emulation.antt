-- ===== src/Bits/Emulation.antt =====
-- Emulation prevention as a function on whole byte strings, with which the readers and the writers
-- of bits/ebspreader.go and bits/ebspwriter.go are compared.
use mp4ff.Base.{
  ℕ, suc, ◌≤◌, ◌<◌, ◌≡◌, refl, arith, Bool, true, false, Bool-cases, inl, inr, ◌&&◌, [], ◌∷◌, ◌++◌,
  ap, ◌∙◌, append_assoc, append-nil, Bytes, leb, ◌==◌, if◌then◌else◌, All, IsByte,
}
use mp4ff.Bits.BitWriter.{Sink}
use mp4ff.Bits.BitWriter.Wrote.{puts}
use mp4ff.Bits.BitReader.Holds.{Delivers}
use mp4ff.Bits.EbspReader.{ebsp_source, count_zero}
use mp4ff.Bits.EbspWriter.{EbspSink, ebsp_sink, put_ebsp}

abbrev needs_prevention : ℕ → ℕ → Bool
needs_prevention seen b = seen == 2 && leb b 3

-- The bytes with a 3 between two zeros and a byte up to 3; `seen` zeros stand before them.
abbrev pub escape : ℕ → Bytes → Bytes
escape seen [] = []
escape seen (b ∷ bs) =
    let rest = escape (count_zero (if needs_prevention seen b then 0 else seen) b) bs in
    if needs_prevention seen b then 3 ∷ b ∷ rest else b ∷ rest

-- Behind two seen stands a byte of 3 or more.
abbrev pub Guarded : ℕ → Bytes → Type 0
Guarded seen [] = Unit
Guarded seen (b ∷ bs) = (2 ≤ seen → 2 < b) × Guarded (count_zero seen b) bs

pub escape-Guarded : (seen : ℕ) (bs : Bytes) → seen ≤ 2 → Guarded seen (escape seen bs)
escape-Guarded seen [] h = tt
escape-Guarded seen (b ∷ bs) h = elim (Bool-cases (needs_prevention seen b)) [
  | inl e ↦ rw e (
    (λ two. omega arith),
    ((λ two. absurd (omega (arith, two))), escape-Guarded (count_zero 0 b) bs (ground arith)),
  )
  | inr e ↦ rw e ((λ two. ground arith), escape-Guarded (count_zero seen b) bs (ground arith))
]

pub Guarded-at :
    (seen : ℕ) (front back : Bytes) (b : ℕ) → Guarded seen (front ++ (0 ∷ 0 ∷ b ∷ back)) → 2 < b
Guarded-at seen [] back b g = g.1.1.0 (omega arith)
Guarded-at seen (x ∷ xs) back b g = Guarded-at (count_zero seen x) xs back b g.1

pub Delivers-escape :
    (k seen : ℕ) (bs : Bytes)
    → seen ≤ 2
    → All IsByte bs
    → Delivers ebsp_source (record { bytes = escape seen bs; nr_read = k; zero_count = seen }) bs
Delivers-escape k seen [] h a = refl
Delivers-escape k seen (b ∷ bs) h a = elim (Bool-cases (needs_prevention seen b)) [
  | inl e ↦
      let two : seen ≡ 2 = ground arith in
      rw e (
        rw two (
          refl,
          a.0,
          omega arith,
          Delivers-escape (suc (suc k)) (count_zero 0 b) bs (ground arith) a.1,
        ))
  | inr e ↦
      let plain : (seen == 2 && b == 3) ≡ false = ground arith in
      rw (e, plain)
        (refl, a.0, omega arith, Delivers-escape (suc k) (count_zero seen b) bs (ground arith) a.1)
]

-- A sink that takes every byte: a `bytes.Buffer`.
abbrev pub buffer : Sink Bytes
buffer = record { put = λ b bs. (true, bs ++ (b ∷ [])) }

put_prevented :
    (b : ℕ) (front : Bytes) (seen : ℕ)
    → needs_prevention seen b ≡ true
    → (put_ebsp buffer b front seen).1
      ≡ record { under = (front ++ (3 ∷ [])) ++ (b ∷ []); nr0 = count_zero 0 b }
put_prevented b front seen e = rw e

put_plain :
    (b : ℕ) (front : Bytes) (seen : ℕ)
    → needs_prevention seen b ≡ false
    → (put_ebsp buffer b front seen).1
      ≡ record { under = front ++ (b ∷ []); nr0 = count_zero seen b }
put_plain b front seen e = rw e

-- The writer's sink escapes what is put into it.
pub puts-escape :
    (bs front : Bytes) (seen : ℕ)
    → (puts (ebsp_sink buffer) (record { under = front; nr0 = seen }) bs).under
      ≡ front ++ escape seen bs
puts-escape [] front seen = rw append-nil
puts-escape (b ∷ bs) front seen = elim (Bool-cases (needs_prevention seen b)) [
  | inl e ↦ rw e (
      ap (λ s. (puts (ebsp_sink buffer) s bs).under) (put_prevented b front seen e)
      ∙ puts-escape bs ((front ++ (3 ∷ [])) ++ (b ∷ [])) (count_zero 0 b)
      ∙ append_assoc (front ++ (3 ∷ [])) (b ∷ []) (escape (count_zero 0 b) bs)
      ∙ append_assoc front (3 ∷ []) (b ∷ escape (count_zero 0 b) bs))
  | inr e ↦ rw e (
      ap (λ s. (puts (ebsp_sink buffer) s bs).under) (put_plain b front seen e)
      ∙ puts-escape bs (front ++ (b ∷ [])) (count_zero seen b)
      ∙ append_assoc front (b ∷ []) (escape (count_zero seen b) bs))
]

pub ebsp_never_fails : (b : ℕ) (s : EbspSink Bytes) → ((ebsp_sink buffer).put b s).0 ≡ true
ebsp_never_fails b s = ground arith
