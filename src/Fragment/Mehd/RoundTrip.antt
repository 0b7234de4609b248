-- ===== src/Fragment/Mehd/RoundTrip.antt =====
-- An mehd box in a file: a signed duration of 32 or 64 bits.
use mp4ff.Base.{
  ◌+◌, ◌≡◌, refl, some, Bytes, codes, ◌++◌, length, length-append, arith, ◌==◌, if◌then◌else◌,
}
use mp4ff.Base.Int.{uint32, uint64, IsInt32, IsInt64}
use mp4ff.Base.Words.{be_bytes, length-be_bytes, IsUint8, IsUint24}
use mp4ff.Bits.Reads.{
  Reads-bind, Reads-end, Reads-finish, Reads-uint32, Reads-int32, Reads-int64, Reads-if,
}
use mp4ff.Bits.Writes.{Writes-seq, Writes-last, Writes-uint32, Writes-uint64, Writes-if}
use mp4ff.Box.{Registry, as_box, version_and_flags}
use mp4ff.Box.Frame.{Codec, codec, version_of_lem, flags_of_lem, version_and_flags-lt}
use mp4ff.Fragment.Mehd.{MehdBox, decode_mehd_sr, mehd_size, encode_mehd_sw, encode_mehd}

pub record IsValid (b : MehdBox) : Type 0 where
  pub version : IsUint8 b.version
  pub flags : IsUint24 b.flags
  pub short : b.version ≡ 0 → IsInt32 b.fragment_duration
  pub duration : IsInt64 b.fragment_duration

abbrev pub payload : MehdBox → Bytes
payload b =
    be_bytes 4 (version_and_flags b.version b.flags)
    ++ (if b.version == 0
        then be_bytes 4 (uint32 b.fragment_duration)
        else be_bytes 8 (uint64 b.fragment_duration))

length-payload : (b : MehdBox) → 8 + length (payload b) ≡ mehd_size b
unfolding mehd_size
length-payload b = ground (
  arith,
  length-append (be_bytes 4 (version_and_flags b.version b.flags)) (
      if b.version == 0
      then be_bytes 4 (uint32 b.fragment_duration)
      else be_bytes 8 (uint64 b.fragment_duration)),
  length-be_bytes 4 (version_and_flags b.version b.flags),
  length-be_bytes 4 (uint32 b.fragment_duration),
  length-be_bytes 8 (uint64 b.fragment_duration),
)

-- Every mehd box whose signed duration fits 32 bits under version 0, and 64 bits otherwise, is
-- encoded with a header of `Size()` bytes in all, and is decoded from there to the same box.
pub mehd_round_trip {ℓ} :
    {B : Type ℓ} (reg : Registry B) (inj : MehdBox → B) (b : MehdBox)
    → reg.decoders_sr (codes "mehd") ≡ some (as_box inj decode_mehd_sr)
    → IsValid b
    → Codec reg inj b (encode_mehd_sw b) (encode_mehd b) (mehd_size b) (codes "mehd") (payload b)
unfolding encode_mehd encode_mehd_sw decode_mehd_sr
mehd_round_trip reg inj b known v =
    codec reg inj (codes "mehd") decode_mehd_sr (mehd_size b) refl known (length-payload b)
      (unfold mehd_size in ground arith)
      (Writes-seq (Writes-uint32 _)
        (Writes-last (Writes-if (b.version == 0) (λ h. Writes-uint32 _) (λ h. Writes-uint64 _))))
      (λ start_pos. Reads-bind _ (Reads-uint32 _ (version_and_flags-lt b.version b.flags)) (
        rw
          (
            version_of_lem b.version b.flags v.version v.flags,
            flags_of_lem b.version b.flags v.version v.flags,
          )
          (Reads-end _
            (Reads-if (b.version == 0) (λ h. Reads-int32 _ (v.short (ground arith)))
              (λ h. Reads-int64 _ v.duration))
            (Reads-finish b))))
