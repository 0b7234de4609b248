-- ===== src/SampleTable/Stsz/RoundTrip.antt =====
-- An stsz box in a file: the common size, the number of samples, and their sizes if these differ.
use mp4ff.Base.{
  ℕ, ◌+◌, ◌*◌, ◌%◌, ◌^◌, ◌<◌, ◌≡◌, refl, ap, some, Bytes, List, [], codes, ◌++◌, length, false,
  length-append, length-flat, arith, ltb, ◌==◌, ==_self, if◌then◌else◌, All, All-intro, All-map,
  flat, Bool-cases, inl, inr, length_eq_zero, append-nil,
}
use mp4ff.Base.Words.{be_bytes, length-be_bytes, IsUint8, IsUint24, IsUint32}
use mp4ff.Base.Action.{◌>>◌, for_each, repeat, when}
use mp4ff.Bits.Reader.{read_uint32}
use mp4ff.Bits.Writer.{write_uint32}
use mp4ff.Bits.Reads.{
  Reads, Reads-pure, Reads-bind, Reads-end, Reads-finish, Reads-fail_if, Reads-uint32, Reads-repeat,
}
use mp4ff.Bits.Writes.{Writes, Writes-seq, Writes-last, Writes-uint32, Writes-for_each}
use mp4ff.Box.{Registry, as_box, version_and_flags}
use mp4ff.Box.Frame.{Codec, codec, version_of_lem, flags_of_lem, version_and_flags-lt}
use mp4ff.SampleTable.Stsz.{
  StszBox, expected_stsz_size, decode_stsz_sr, stsz_size, encode_stsz_sw, encode_stsz,
}

-- Sizes are listed only if there is no common size, and then for all samples.
pub record IsValid (b : StszBox) : Type 0 where
  pub version : IsUint8 b.version
  pub flags : IsUint24 b.flags
  pub uniform : IsUint32 b.sample_uniform_size
  pub number : IsUint32 b.sample_number
  pub sizes : All IsUint32 b.sample_size
  pub listed : b.sample_uniform_size ≡ 0 → length b.sample_size ≡ b.sample_number
  pub common : 0 < b.sample_uniform_size → b.sample_size ≡ []
  pub fits : IsUint32 (expected_stsz_size b.sample_uniform_size b.sample_number)

abbrev pub payload : StszBox → Bytes
payload b =
    be_bytes 4 (version_and_flags b.version b.flags)
    ++ (be_bytes 4 b.sample_uniform_size
        ++ (be_bytes 4 b.sample_number ++ flat (be_bytes 4) b.sample_size))

length-sizes : (xs : List ℕ) → length (flat (be_bytes 4) xs) ≡ length xs * 4
length-sizes xs =
    length-flat (be_bytes 4) 4 xs
      (All-intro (λ v. length (be_bytes 4 v) ≡ 4) xs (length-be_bytes 4))

module _ (b : StszBox) (v : IsValid b) where
  length-payload : 8 + length (payload b) ≡ expected_stsz_size b.sample_uniform_size b.sample_number
  unfolding expected_stsz_size
  length-payload = elim (Bool-cases (ltb 0 b.sample_uniform_size)) [
    | inl h ↦ rw (h, v.common (ground arith)) (simp (length-append, length-be_bytes, length-sizes))
    | inr h ↦
        let e = v.listed (ground arith) in
        rw h (simp (length-append, length-be_bytes, length-sizes, e) (omega arith))
  ]

  uniform_of_listed : (length b.sample_size == 0) ≡ false → b.sample_uniform_size ≡ 0
  uniform_of_listed h = elim (Bool-cases (ltb 0 b.sample_uniform_size)) [
    | inl l ↦ absurd (ground (arith, ap length (v.common (ground arith))))
    | inr l ↦ ground arith
  ]

  Writes-sizes :
      Writes
        (if length b.sample_size == 0
          then write_uint32 b.sample_number
          else write_uint32 (length b.sample_size % 2 ^ 32) >> for_each write_uint32 b.sample_size)
        (be_bytes 4 b.sample_number ++ flat (be_bytes 4) b.sample_size)
  Writes-sizes = elim (Bool-cases (length b.sample_size == 0)) [
    | inl h ↦ rw (h, length_eq_zero b.sample_size (ground arith)) (rw append-nil (Writes-uint32 _))
    | inr h ↦
        let e = uniform_of_listed h in
        let n = v.listed e in
        let small : b.sample_number % 2 ^ 32 ≡ b.sample_number = omega (arith, v.number) in
        rw (h, n, small)
          (Writes-seq (Writes-uint32 _) (
            Writes-for_each write_uint32 (be_bytes 4) b.sample_size (
              All-intro (λ x. Writes (write_uint32 x) (be_bytes 4 x)) b.sample_size Writes-uint32)))
  ]

  Reads-sizes :
      Reads
        (when (b.sample_uniform_size == 0) [] (repeat b.sample_number read_uint32))
        (flat (be_bytes 4) b.sample_size)
        b.sample_size
  Reads-sizes = elim (Bool-cases (b.sample_uniform_size == 0)) [
    | inl h ↦
        rw (h, ← v.listed (ground arith))
          (Reads-repeat read_uint32 (be_bytes 4) b.sample_size (
            All-map IsUint32 (λ x. Reads read_uint32 (be_bytes 4 x) x) b.sample_size Reads-uint32
              v.sizes))
    | inr h ↦ rw (h, v.common (ground arith)) (Reads-pure [])
  ]

-- Every stsz box with a common size, or with a size for each of its samples, is encoded as its
-- version and flags, the common size, the count and the sizes, behind a header of `Size()` bytes in
-- all, and is decoded from there to the same box.
pub stsz_round_trip {ℓ} :
    {B : Type ℓ} (reg : Registry B) (inj : StszBox → B) (b : StszBox)
    → reg.decoders_sr (codes "stsz") ≡ some (as_box inj decode_stsz_sr)
    → IsValid b
    → Codec reg inj b (encode_stsz_sw b) (encode_stsz b) (stsz_size b) (codes "stsz") (payload b)
unfolding encode_stsz encode_stsz_sw decode_stsz_sr stsz_size
stsz_round_trip reg inj b known v =
    codec reg inj (codes "stsz") decode_stsz_sr
      (expected_stsz_size b.sample_uniform_size b.sample_number) refl known (length-payload b v)
      v.fits
      (Writes-seq (Writes-uint32 _) (Writes-seq (Writes-uint32 _) (Writes-last (Writes-sizes b v))))
      (λ start_pos. Reads-bind _ (Reads-uint32 _ (version_and_flags-lt b.version b.flags)) (
        rw
          (
            version_of_lem b.version b.flags v.version v.flags,
            flags_of_lem b.version b.flags v.version v.flags,
          )
          (Reads-bind _ (Reads-uint32 _ v.uniform) (
            Reads-bind _ (Reads-uint32 _ v.number)
              (Reads-fail_if _ _ (rw ==_self) (Reads-end _ (Reads-sizes b v) (Reads-finish b)))))))
