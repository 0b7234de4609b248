-- ===== src/Crypto/Samples/Cut.antt =====
-- What mp4/crypto.go protects of one NAL unit, as its codec and scheme say.
use mp4ff.Base.{
  ℕ, ◌+◌, ◌-◌, ◌^◌, ◌<◌, ◌≤◌, ◌≡◌, refl, ap, sym, ◌∙◌, arith, Bool, true, false, some, [], ◌∷◌,
  ◌++◌, List, Bytes, length, take, drop, get_elem?, ltb-false, if◌then◌else◌, replicate, Bool-cases,
  inl, inr, append_assoc, length-append, take-length_append, drop-length_append,
}
use mp4ff.Base.Words.{be_bytes, length-be_bytes}
use mp4ff.Base.Action.{ok}
use mp4ff.Avc.Nalus.RoundTrip.{with_length}
use mp4ff.Crypto.Samples.{NaluSyntax, is_video_nalu_type, Scheme, protect_video, nalu_range}

-- How many bytes at the end of a NAL unit are protected: `protected` is what the code computes.
pub record Cuts (syn : NaluSyntax) (scheme : Scheme) (protected : Bytes → ℕ) (nalu : Bytes)
    : Type 0 where
  pub within : protected nalu ≤ length nalu
  pub cut :
      (pos : ℕ)
      → 4 ≤ pos
      → pos + length nalu < 2 ^ 32
      → protect_video syn scheme pos (length nalu) nalu
        ≡ ok (pos + (length nalu - protected nalu), protected nalu)

abbrev pub is_video_nalu : NaluSyntax → Bytes → Bool
is_video_nalu syn [] = false
is_video_nalu syn (b ∷ bs) = is_video_nalu_type syn (syn.get_nalu_type b)

-- This is asked of the video NAL units only.
abbrev pub CutsVideo : NaluSyntax → Scheme → (Bytes → ℕ) → Bytes → Type 0
CutsVideo syn scheme protected nalu = is_video_nalu syn nalu ≡ true → Cuts syn scheme protected nalu

module _ (syn : NaluSyntax) (protected : Bytes → ℕ) where
  -- Of other NAL units nothing is protected.
  abbrev pub protected_end : Bytes → ℕ
  protected_end [] = 0
  protected_end (b ∷ bs) =
      if is_video_nalu_type syn (syn.get_nalu_type b) then protected (b ∷ bs) else 0

  -- The length field and the first bytes are clear.
  abbrev pub nalu_marks : Bytes → List Bool
  nalu_marks nalu =
      let p = protected_end nalu in replicate (4 + (length nalu - p)) false ++ replicate p true

get_elem-append :
    (done rest : Bytes) (b : ℕ) → get_elem? (done ++ (b ∷ rest)) (length done) ≡ some b
get_elem-append [] rest b = refl
get_elem-append (x ∷ xs) rest b = get_elem-append xs rest b

module _ (syn : NaluSyntax) (scheme : Scheme) (protected : Bytes → ℕ) where
  nalu_range_lem :
      (done rest bs : Bytes) (b : ℕ)
      → CutsVideo syn scheme protected (b ∷ bs)
      → 4 ≤ length done
      → length done + length (b ∷ bs) < 2 ^ 32
      → nalu_range syn scheme
          (done ++ ((b ∷ bs) ++ rest))
          (length done)
          (length (b ∷ bs))
          (length done + length (b ∷ bs))
        ≡ ok (
          length done + (length (b ∷ bs) - protected_end syn protected (b ∷ bs)),
          protected_end syn protected (b ∷ bs),
        )
  unfolding nalu_range
  nalu_range_lem done rest bs b c f h =
      let nalu = b ∷ bs in
      let byte = get_elem-append done (bs ++ rest) b in
      elim (Bool-cases (is_video_nalu_type syn (syn.get_nalu_type b))) [
        | inr other ↦ rw (nalu_range, byte, other) (ap (λ x. ok (x, 0)) (omega arith))
        | inl video ↦
            let ascending = ltb-false (length done + length nalu) (length done) (omega arith) in
            let size : length done + length nalu - length done ≡ length nalu = omega arith in
            let bytes : take (length nalu) (drop (length done) (done ++ (nalu ++ rest))) ≡ nalu =
              rw (drop-length_append done (nalu ++ rest)) (take-length_append nalu rest) in
            rw (nalu_range, byte, video, ascending, size)
              (ap (protect_video syn scheme (length done) (length nalu)) bytes
                ∙ (c video).cut (length done) f h)
      ]

  -- The NAL unit behind its length field, in the sample.
  pub nalu_range_behind :
      (done n rest : Bytes)
      → CutsVideo syn scheme protected n
      → 0 < length n
      → length done + 4 + length n < 2 ^ 32
      → nalu_range syn scheme
          (done ++ (with_length n ++ rest))
          (length done + 4)
          (length n)
          (length done + 4 + length n)
        ≡ ok (
          length done + 4 + (length n - protected_end syn protected n),
          protected_end syn protected n,
        )
  nalu_range_behind done [] rest c p h = absurd (omega arith)
  nalu_range_behind done (b ∷ bs) rest c p h =
      let field = be_bytes 4 (length (b ∷ bs)) in
      let size : length (done ++ field) ≡ length done + 4 =
        omega (arith, length-append done field, length-be_bytes 4 (length (b ∷ bs))) in
      let same : (done ++ field) ++ ((b ∷ bs) ++ rest) ≡ done ++ (with_length (b ∷ bs) ++ rest) =
        append_assoc done field ((b ∷ bs) ++ rest)
        ∙ ap (◌++◌ done) (sym (append_assoc field (b ∷ bs) rest)) in
      rw (size, same) at (nalu_range_lem (done ++ field) rest bs b c (omega arith) (omega arith))

  pub protected_end-within :
      (nalu : Bytes)
      → CutsVideo syn scheme protected nalu
      → protected_end syn protected nalu ≤ length nalu
  protected_end-within [] c = omega arith
  protected_end-within (b ∷ bs) c =
      elim (Bool-cases (is_video_nalu_type syn (syn.get_nalu_type b))) [
        | inl video ↦ rw video (c video).within
        | inr other ↦ rw other (omega arith)
      ]
