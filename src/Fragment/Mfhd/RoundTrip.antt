-- ===== src/Fragment/Mfhd/RoundTrip.antt =====
-- What an mfhd box looks like in a file, and that it is decoded to what was encoded.
use mp4ff.Base.{◌≡◌, refl, some, Bytes, codes, ◌++◌, length-append, arith}
use mp4ff.Base.Words.{be_bytes, length-be_bytes, IsUint8, IsUint24, IsUint32}
use mp4ff.Bits.Reads.{Reads-bind, Reads-end, Reads-finish, Reads-uint32}
use mp4ff.Bits.Writes.{Writes-seq, Writes-last, Writes-uint32}
use mp4ff.Box.{Registry, as_box, version_and_flags}
use mp4ff.Box.Frame.{Codec, codec, version_of_lem, flags_of_lem, version_and_flags-lt}
use mp4ff.Fragment.Mfhd.{MfhdBox, decode_mfhd_sr, mfhd_size, encode_mfhd_sw, encode_mfhd}

pub record IsValid (m : MfhdBox) : Type 0 where
  pub version : IsUint8 m.version
  pub flags : IsUint24 m.flags
  pub sequence_number : IsUint32 m.sequence_number

abbrev pub payload : MfhdBox → Bytes
payload m = be_bytes 4 (version_and_flags m.version m.flags) ++ be_bytes 4 m.sequence_number

-- Every mfhd box whose fields fit their widths is encoded as its version, flags and sequence number
-- behind a header of `Size()` bytes in all, and is decoded from there to the same box.
pub mfhd_round_trip {ℓ} :
    {B : Type ℓ} (reg : Registry B) (inj : MfhdBox → B) (m : MfhdBox)
    → reg.decoders_sr (codes "mfhd") ≡ some (as_box inj decode_mfhd_sr)
    → IsValid m
    → Codec reg inj m (encode_mfhd_sw m) (encode_mfhd m) (mfhd_size m) (codes "mfhd") (payload m)
unfolding encode_mfhd encode_mfhd_sw mfhd_size decode_mfhd_sr
mfhd_round_trip reg inj m known v =
    codec reg inj (codes "mfhd") decode_mfhd_sr 16 refl known
      (omega (
        arith,
        length-append (be_bytes 4 (version_and_flags m.version m.flags))
            (be_bytes 4 m.sequence_number),
        length-be_bytes,
      ))
      (omega arith) (Writes-seq (Writes-uint32 _) (Writes-last (Writes-uint32 _)))
      (λ start_pos. Reads-bind _ (Reads-uint32 _ (version_and_flags-lt m.version m.flags)) (
        Reads-end _ (Reads-uint32 _ v.sequence_number) (
          rw
            (
              version_of_lem m.version m.flags v.version v.flags,
              flags_of_lem m.version m.flags v.version v.flags,
            )
            (Reads-finish m))))
