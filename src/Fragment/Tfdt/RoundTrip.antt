-- ===== src/Fragment/Tfdt/RoundTrip.antt =====
-- A tfdt box in a file: its time takes 32 bits under version 0 and 64 bits under version 1.
use mp4ff.Base.{
  ℕ, ◌+◌, ◌*◌, ◌%◌, ◌^◌, ◌<◌, ◌≤◌, ◌≡◌, refl, some, Bytes, codes, ◌++◌, length, length-append, true,
  arith, ◌==◌, if◌then◌else◌,
}
use mp4ff.Base.Words.{be_bytes, length-be_bytes, IsUint24, IsUint32, IsUint64}
use mp4ff.Bits.Reads.{Reads-bind, Reads-end, Reads-finish, Reads-uint32, Reads-uint64, Reads-if}
use mp4ff.Bits.Writes.{Writes-seq, Writes-last, Writes-uint32, Writes-uint64, Writes-if}
use mp4ff.Box.{Registry, as_box, version_and_flags}
use mp4ff.Box.Frame.{Codec, codec, version_of_lem, flags_of_lem, version_and_flags-lt}
use mp4ff.Fragment.Tfdt.{
  TfdtBox, decode_tfdt_sr, set_base_media_decode_time, tfdt_size, encode_tfdt_sw, encode_tfdt,
}

-- The time fits 32 bits under version 0, and 64 bits under version 1.
pub record IsValid (t : TfdtBox) : Type 0 where
  pub version : t.version ≤ 1
  pub flags : IsUint24 t.flags
  pub short : t.version ≡ 0 → IsUint32 t.base_media_decode_time
  pub time : IsUint64 t.base_media_decode_time

abbrev pub payload : TfdtBox → Bytes
payload t =
    be_bytes 4 (version_and_flags t.version t.flags)
    ++ (if t.version == 0
        then be_bytes 4 t.base_media_decode_time
        else be_bytes 8 t.base_media_decode_time)

module _ (t : TfdtBox) (v : IsValid t) where
  length-payload : 8 + length (payload t) ≡ 8 + 8 + 4 * t.version
  length-payload = ground (
    arith,
    v.version,
    length-append (be_bytes 4 (version_and_flags t.version t.flags)) (
        if t.version == 0
        then be_bytes 4 t.base_media_decode_time
        else be_bytes 8 t.base_media_decode_time),
    length-be_bytes 4 (version_and_flags t.version t.flags),
    length-be_bytes 4 t.base_media_decode_time,
    length-be_bytes 8 t.base_media_decode_time,
  )

  short_time : (t.version == 0) ≡ true → IsUint32 t.base_media_decode_time
  short_time e = v.short (ground arith)

  small_time :
      (t.version == 0) ≡ true → t.base_media_decode_time % 2 ^ 32 ≡ t.base_media_decode_time
  small_time e = omega (arith, short_time e)

-- Every tfdt box whose version, flags and time fit is encoded with a time of 4 or 8 bytes and a
-- header of `Size()` bytes in all, and is decoded from there to the same box.
pub tfdt_round_trip {ℓ} :
    {B : Type ℓ} (reg : Registry B) (inj : TfdtBox → B) (t : TfdtBox)
    → reg.decoders_sr (codes "tfdt") ≡ some (as_box inj decode_tfdt_sr)
    → IsValid t
    → Codec reg inj t (encode_tfdt_sw t) (encode_tfdt t) (tfdt_size t) (codes "tfdt") (payload t)
unfolding encode_tfdt encode_tfdt_sw tfdt_size decode_tfdt_sr
tfdt_round_trip reg inj t known v =
    let byte : t.version < 2 ^ 8 = omega (arith, v.version) in
    let e = version_of_lem t.version t.flags byte v.flags in
    codec reg inj (codes "tfdt") decode_tfdt_sr (8 + 8 + 4 * t.version) refl known
      (length-payload t v) (omega (arith, v.version))
      (Writes-seq (Writes-uint32 _) (
        Writes-last (
          Writes-if (t.version == 0) (λ h. rw (small_time t v h) (Writes-uint32 _))
            (λ h. Writes-uint64 _))))
      (λ start_pos. Reads-bind _ (Reads-uint32 _ (version_and_flags-lt t.version t.flags)) (
        rw (e, flags_of_lem t.version t.flags byte v.flags)
          (Reads-end _
            (Reads-if (t.version == 0) (λ h. Reads-uint32 _ (short_time t v h))
              (λ h. Reads-uint64 _ v.time))
            (Reads-finish t))))

-- Setting any 64-bit time in a box with 24-bit flags chooses a version under which the box is valid,
-- and the time is the one that was set.
pub set_base_media_decode_time-IsValid :
    (t : TfdtBox) (time : ℕ)
    → IsUint24 t.flags
    → IsUint64 time
    → IsValid (set_base_media_decode_time t time)
      × ((set_base_media_decode_time t time).base_media_decode_time ≡ time)
      × ((set_base_media_decode_time t time).flags ≡ t.flags)
unfolding set_base_media_decode_time
set_base_media_decode_time-IsValid t time hf ht = ground arith
