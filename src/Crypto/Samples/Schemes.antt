-- ===== src/Crypto/Samples/Schemes.antt =====
-- The protected bytes of a sample by the two schemes of mp4/crypto.go.
use mp4ff.Base.{
  ℕ, ◌+◌, ◌-◌, ◌*◌, ◌/◌, ◌%◌, ◌^◌, ◌<◌, ◌≤◌, ◌≡◌, ap, arith, true, false, ◌∷◌, List, Bytes, length,
  leb, if◌then◌else◌, flat, All, All-map, All-intro, Bool-cases, inl, inr,
}
use mp4ff.Base.Words.{IsUint16, IsUint32}
use mp4ff.Base.Action.{ok, err}
use mp4ff.Avc.Nalus.RoundTrip.{sample_of}
use mp4ff.Crypto.{SubSamplePattern}
use mp4ff.Crypto.Ranges.{marks}
use mp4ff.Crypto.Samples.{NaluSyntax, cenc, cbcs, protect_video, get_protect_ranges}
use mp4ff.Crypto.Samples.Cut.{Cuts, CutsVideo, is_video_nalu, nalu_marks}
use mp4ff.Crypto.Samples.Cover.{get_protect_ranges-marks}

-- Whole blocks of 16 bytes from the end, where at least 112 bytes are there with the length field, of
-- which 96 or more are left clear.
abbrev pub cenc_bytes : Bytes → ℕ
cenc_bytes nalu = if leb 108 (length nalu) then (length nalu - 92) / 16 * 16 else 0

pub cenc-Cuts : (syn : NaluSyntax) (nalu : Bytes) → CutsVideo syn cenc cenc_bytes nalu
unfolding protect_video
cenc-Cuts syn nalu video = record { within = ground arith; cut = λ pos f h. cut pos f h }
  where
    cut :
        (pos : ℕ)
        → 4 ≤ pos
        → pos + length nalu < 2 ^ 32
        → protect_video syn cenc pos (length nalu) nalu
          ≡ ok (pos + (length nalu - cenc_bytes nalu), cenc_bytes nalu)
    cut pos f h =
        let n = length nalu in
        let stop : (pos + n) % 2 ^ 32 ≡ pos + n = omega arith in
        let whole : (n + 4) % 2 ^ 32 ≡ n + 4 = omega arith in
        elim (Bool-cases (leb 108 n)) [
          | inl long ↦
              let long' : leb 112 (n + 4) ≡ true = ground (arith, long) in
              let p : (n + 4 - 96) / 16 * 16 ≡ (n - 92) / 16 * 16 = omega arith in
              let k : 108 ≤ n = ground (arith, long) in
              let end : (pos + n + 2 ^ 32 - (n - 92) / 16 * 16) % 2 ^ 32
                  ≡ pos + (n - (n - 92) / 16 * 16) =
                omega arith in
              rw (stop, whole, long', long, p, end)
          | inr short ↦
              let short' : leb 112 (n + 4) ≡ false = ground (arith, short) in
              let end : pos + n ≡ pos + (n - 0) = omega arith in
              rw (stop, whole, short', short) (ap (λ x. ok (x, 0)) end)
        ]

-- The size of the slice header, where there is one.
abbrev pub header_of : NaluSyntax → Bytes → ℕ
header_of syn nalu = elim (syn.slice_header_size nalu) [ ok size ↦ size | err e ↦ 0 ]

-- The slice header is parsed, and lies within its NAL unit.
abbrev pub HasHeader : NaluSyntax → Bytes → Type 0
HasHeader syn nalu =
    (syn.slice_header_size nalu ≡ ok (header_of syn nalu)) × (header_of syn nalu ≤ length nalu)

-- All bytes behind the slice header.
abbrev pub cbcs_bytes : NaluSyntax → Bytes → ℕ
cbcs_bytes syn nalu = length nalu - header_of syn nalu

cbcs-Cuts :
    (syn : NaluSyntax) (nalu : Bytes) → HasHeader syn nalu → Cuts syn cbcs (cbcs_bytes syn) nalu
unfolding protect_video
cbcs-Cuts syn nalu has = record {
  within = within (header_of syn nalu);
  cut = λ pos f h. cut (header_of syn nalu) pos has.0 has.1 f h;
}
  where
    within : (size : ℕ) → length nalu - size ≤ length nalu
    within size = omega arith

    cut :
        (size pos : ℕ)
        → syn.slice_header_size nalu ≡ ok size
        → size ≤ length nalu
        → 4 ≤ pos
        → pos + length nalu < 2 ^ 32
        → protect_video syn cbcs pos (length nalu) nalu
          ≡ ok (pos + (length nalu - (length nalu - size)), length nalu - size)
    cut size pos parse fit f h =
        let n = length nalu in
        let same : size % 2 ^ 32 ≡ size = omega arith in
        let start : (pos + size) % 2 ^ 32 ≡ pos + (n - (n - size)) = omega arith in
        let rest : (n + 2 ^ 32 - size) % 2 ^ 32 ≡ n - size = omega arith in
        rw (protect_video, parse, same, start, rest)

-- By the scheme cenc, the patterns of a sample of NAL units say of every byte whether it is protected:
-- of a video NAL unit of 108 bytes or more, as many whole blocks of 16 bytes at its end as leave 92
-- bytes of it clear, and nothing else. Their clear bytes fit 16 bits. The NAL units are not empty, and the
-- sample has fewer than 2^32 bytes.
pub get_protect_ranges_cenc :
    (syn : NaluSyntax) (n : Bytes) (ns : List Bytes)
    → All (λ nalu. 0 < length nalu) (n ∷ ns)
    → IsUint32 (length (sample_of (n ∷ ns)))
    → (ssps : List SubSamplePattern) × (get_protect_ranges syn (sample_of (n ∷ ns)) cenc ≡ ok ssps)
      × (marks ssps ≡ flat (nalu_marks syn cenc_bytes) (n ∷ ns))
      × All (λ ss. IsUint16 ss.bytes_of_clear_data) ssps
get_protect_ranges_cenc syn n ns =
    get_protect_ranges-marks syn cenc cenc_bytes n ns
      (All-intro (CutsVideo syn cenc cenc_bytes) (n ∷ ns) (cenc-Cuts syn))

-- By the scheme cbcs, the patterns of a sample of NAL units say of every byte whether it is protected:
-- of a video NAL unit all bytes behind its slice header, and nothing else. Their clear bytes fit 16 bits.
-- The slice header of every video NAL unit of the sample is parsed without an error and lies within it;
-- the parser may fail on all other bytes, as on the other NAL units of the sample. The NAL units are not
-- empty, and the sample has fewer than 2^32 bytes.
pub get_protect_ranges_cbcs :
    (syn : NaluSyntax) (n : Bytes) (ns : List Bytes)
    → All (λ nalu. is_video_nalu syn nalu ≡ true → HasHeader syn nalu) (n ∷ ns)
    → All (λ nalu. 0 < length nalu) (n ∷ ns)
    → IsUint32 (length (sample_of (n ∷ ns)))
    → (ssps : List SubSamplePattern) × (get_protect_ranges syn (sample_of (n ∷ ns)) cbcs ≡ ok ssps)
      × (marks ssps ≡ flat (nalu_marks syn (cbcs_bytes syn)) (n ∷ ns))
      × All (λ ss. IsUint16 ss.bytes_of_clear_data) ssps
get_protect_ranges_cbcs syn n ns headers = get_protect_ranges-marks syn cbcs (cbcs_bytes syn) n ns (
    All-map (λ nalu. is_video_nalu syn nalu ≡ true → HasHeader syn nalu)
      (CutsVideo syn cbcs (cbcs_bytes syn)) (n ∷ ns)
      (λ nalu has video. cbcs-Cuts syn nalu (has video)) headers)
