-- ===== src/Fragment/Trex/RoundTrip.antt =====
-- A trex box in a file.
use mp4ff.Base.{◌≡◌, refl, some, Bytes, codes, ◌++◌, length-append, arith}
use mp4ff.Base.Words.{be_bytes, length-be_bytes, IsUint8, IsUint24, IsUint32}
use mp4ff.Bits.Reads.{Reads-bind, Reads-end, Reads-finish, Reads-uint32}
use mp4ff.Bits.Writes.{Writes-seq, Writes-last, Writes-uint32}
use mp4ff.Box.{Registry, as_box, version_and_flags}
use mp4ff.Box.Frame.{Codec, codec, version_of_lem, flags_of_lem, version_and_flags-lt}
use mp4ff.Fragment.Trex.{TrexBox, decode_trex_sr, trex_size, encode_trex_sw, encode_trex}

pub record IsValid (b : TrexBox) : Type 0 where
  pub version : IsUint8 b.version
  pub flags : IsUint24 b.flags
  pub track_id : IsUint32 b.track_id
  pub index : IsUint32 b.default_sample_description_index
  pub duration : IsUint32 b.default_sample_duration
  pub size : IsUint32 b.default_sample_size
  pub sample_flags : IsUint32 b.default_sample_flags

abbrev pub payload : TrexBox → Bytes
payload b =
    be_bytes 4 (version_and_flags b.version b.flags)
    ++ (be_bytes 4 b.track_id
        ++ (be_bytes 4 b.default_sample_description_index
            ++ (be_bytes 4 b.default_sample_duration
                ++ (be_bytes 4 b.default_sample_size ++ be_bytes 4 b.default_sample_flags))))

-- Every trex box whose fields fit their widths is encoded as its six 32-bit words behind a header of
-- `Size()` bytes in all, and is decoded from there to the same box.
pub trex_round_trip {ℓ} :
    {B : Type ℓ} (reg : Registry B) (inj : TrexBox → B) (b : TrexBox)
    → reg.decoders_sr (codes "trex") ≡ some (as_box inj decode_trex_sr)
    → IsValid b
    → Codec reg inj b (encode_trex_sw b) (encode_trex b) (trex_size b) (codes "trex") (payload b)
unfolding encode_trex encode_trex_sw trex_size decode_trex_sr
trex_round_trip reg inj b known v =
    codec reg inj (codes "trex") decode_trex_sr 32 refl known
      (simp (length-append, length-be_bytes)) (omega arith)
      (Writes-seq (Writes-uint32 _) (
        Writes-seq (Writes-uint32 _) (
          Writes-seq (Writes-uint32 _) (
            Writes-seq (Writes-uint32 _)
              (Writes-seq (Writes-uint32 _) (Writes-last (Writes-uint32 _)))))))
      (λ start_pos. Reads-bind _ (Reads-uint32 _ (version_and_flags-lt b.version b.flags)) (
        Reads-bind _ (Reads-uint32 _ v.track_id) (
          Reads-bind _ (Reads-uint32 _ v.index) (
            Reads-bind _ (Reads-uint32 _ v.duration) (
              Reads-bind _ (Reads-uint32 _ v.size) (
                Reads-end _ (Reads-uint32 _ v.sample_flags) (
                  rw
                    (
                      version_of_lem b.version b.flags v.version v.flags,
                      flags_of_lem b.version b.flags v.version v.flags,
                    )
                    (Reads-finish b))))))))
