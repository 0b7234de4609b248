-- ===== src/Fragment/Tfhd/RoundTrip.antt =====
-- A tfhd box in a file: the fields that its flags name, in their order.
use mp4ff.Base.{
  ℕ, ◌+◌, ◌≡◌, refl, some, Bytes, [], codes, ◌++◌, length, length-append, length-if, arith, Bool,
  if◌then◌else◌,
}
use mp4ff.Base.Words.{be_bytes, length-be_bytes, IsUint8, IsUint24, IsUint32, IsUint64}
use mp4ff.Bits.Reads.{Reads-bind, Reads-end, Reads-finish, Reads-uint32, Reads-uint64, Reads-flag}
use mp4ff.Bits.Writes.{Writes-seq, Writes-last, Writes-uint32, Writes-uint64, Writes-when}
use mp4ff.Box.{Registry, as_box, version_and_flags}
use mp4ff.Box.Frame.{Codec, codec, version_of_lem, flags_of_lem, version_and_flags-lt}
use mp4ff.Fragment.Tfhd.{
  TfhdBox, has_base_data_offset, has_sample_description_index, has_default_sample_duration,
  has_default_sample_size, has_default_sample_flags, decode_tfhd_sr, tfhd_size, encode_tfhd_sw,
  encode_tfhd,
}

pub record IsValid (t : TfhdBox) : Type 0 where
  pub version : IsUint8 t.version
  pub flags : IsUint24 t.flags
  pub track_id : IsUint32 t.track_id
  pub offset : IsUint64 t.base_data_offset
  pub index : IsUint32 t.sample_description_index
  pub duration : IsUint32 t.default_sample_duration
  pub size : IsUint32 t.default_sample_size
  pub sample_flags : IsUint32 t.default_sample_flags

-- What a file keeps of a box: a field that no flag names is 0 when it is read back.
abbrev pub stored : TfhdBox → TfhdBox
stored t = record t {
  base_data_offset = if has_base_data_offset t.flags then t.base_data_offset else 0;
  sample_description_index =
      if has_sample_description_index t.flags then t.sample_description_index else 0;
  default_sample_duration =
      if has_default_sample_duration t.flags then t.default_sample_duration else 0;
  default_sample_size = if has_default_sample_size t.flags then t.default_sample_size else 0;
  default_sample_flags = if has_default_sample_flags t.flags then t.default_sample_flags else 0;
}

abbrev optional : Bool → ℕ → ℕ → Bytes
optional c k v = if c then be_bytes k v else []

abbrev pub payload : TfhdBox → Bytes
payload t =
    be_bytes 4 (version_and_flags t.version t.flags)
    ++ (be_bytes 4 t.track_id
        ++ (optional (has_base_data_offset t.flags) 8 t.base_data_offset
            ++ (optional (has_sample_description_index t.flags) 4 t.sample_description_index
                ++ (optional (has_default_sample_duration t.flags) 4 t.default_sample_duration
                    ++ (optional (has_default_sample_size t.flags) 4 t.default_sample_size
                        ++ optional (has_default_sample_flags t.flags) 4 t.default_sample_flags)))))

length-payload : (t : TfhdBox) → 8 + length (payload t) ≡ tfhd_size t
unfolding tfhd_size
length-payload t = simp (length-append, length-if, length-be_bytes) (omega arith)

tfhd_size-le : (t : TfhdBox) → IsUint32 (tfhd_size t)
unfolding tfhd_size
tfhd_size-le t = ground arith

-- Every tfhd box whose fields fit their widths is encoded as its track id and the fields that its
-- flags name, behind a header of `Size()` bytes in all, and is decoded from there to the same box
-- with every other optional field 0.
pub tfhd_round_trip {ℓ} :
    {B : Type ℓ} (reg : Registry B) (inj : TfhdBox → B) (t : TfhdBox)
    → reg.decoders_sr (codes "tfhd") ≡ some (as_box inj decode_tfhd_sr)
    → IsValid t
    → Codec reg inj
        (stored t)
        (encode_tfhd_sw t)
        (encode_tfhd t)
        (tfhd_size t)
        (codes "tfhd")
        (payload t)
unfolding encode_tfhd encode_tfhd_sw decode_tfhd_sr
tfhd_round_trip reg inj t known v =
    codec reg inj (codes "tfhd") decode_tfhd_sr (tfhd_size t) refl known (length-payload t)
      (tfhd_size-le t)
      (Writes-seq (Writes-uint32 _) (
        Writes-seq (Writes-uint32 _) (
          Writes-seq (Writes-when (has_base_data_offset t.flags) (Writes-uint64 _)) (
            Writes-seq (Writes-when (has_sample_description_index t.flags) (Writes-uint32 _)) (
              Writes-seq (Writes-when (has_default_sample_duration t.flags) (Writes-uint32 _)) (
                Writes-seq (Writes-when (has_default_sample_size t.flags) (Writes-uint32 _)) (
                  Writes-last
                    (Writes-when (has_default_sample_flags t.flags) (Writes-uint32 _)))))))))
      (λ start_pos. Reads-bind _ (Reads-uint32 _ (version_and_flags-lt t.version t.flags)) (
        rw
          (
            version_of_lem t.version t.flags v.version v.flags,
            flags_of_lem t.version t.flags v.version v.flags,
          )
          (Reads-bind _ (Reads-uint32 _ v.track_id) (
            Reads-bind _ (Reads-flag (has_base_data_offset t.flags) 0 (Reads-uint64 _ v.offset)) (
              Reads-bind _
                (Reads-flag (has_sample_description_index t.flags) 0 (Reads-uint32 _ v.index))
                (Reads-bind _
                  (Reads-flag (has_default_sample_duration t.flags) 0 (Reads-uint32 _ v.duration))
                  (Reads-bind _
                    (Reads-flag (has_default_sample_size t.flags) 0 (Reads-uint32 _ v.size))
                    (Reads-end _
                      (Reads-flag (has_default_sample_flags t.flags) 0
                        (Reads-uint32 _ v.sample_flags))
                      (Reads-finish (stored t))))))))))
