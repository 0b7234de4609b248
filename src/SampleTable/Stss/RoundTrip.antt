-- ===== src/SampleTable/Stss/RoundTrip.antt =====
-- An stss box in a file: its count of entries, and the number of each sync sample.
use mp4ff.Base.{
  ◌+◌, ◌*◌, ◌%◌, ◌^◌, ◌<◌, ◌≡◌, refl, some, Bytes, codes, ◌++◌, length, length-append, length-flat,
  arith, ==_self, All, All-intro, All-map, flat,
}
use mp4ff.Base.Words.{be_bytes, length-be_bytes, IsUint8, IsUint24, IsUint32}
use mp4ff.Bits.Reader.{read_uint32}
use mp4ff.Bits.Writer.{write_uint32}
use mp4ff.Bits.Reads.{
  Reads, Reads-bind, Reads-end, Reads-pure, Reads-fail_if, Reads-uint32, Reads-repeat,
}
use mp4ff.Bits.Writes.{Writes, Writes-seq, Writes-last, Writes-uint32, Writes-for_each}
use mp4ff.Box.{Registry, as_box, version_and_flags}
use mp4ff.Box.Frame.{Codec, codec, version_of_lem, flags_of_lem, version_and_flags-lt}
use mp4ff.SampleTable.Stss.{
  StssBox, expected_stss_size, decode_stss_sr, stss_size, encode_stss_sw, encode_stss,
}

pub record IsValid (b : StssBox) : Type 0 where
  pub version : IsUint8 b.version
  pub flags : IsUint24 b.flags
  pub numbers : All IsUint32 b.sample_number
  pub fits : 16 + length b.sample_number * 4 < 2 ^ 32

abbrev pub payload : StssBox → Bytes
payload b =
    be_bytes 4 (version_and_flags b.version b.flags)
    ++ (be_bytes 4 (length b.sample_number) ++ flat (be_bytes 4) b.sample_number)

length-payload :
    (b : StssBox) → 8 + length (payload b) ≡ expected_stss_size (length b.sample_number)
unfolding expected_stss_size
length-payload b =
    simp
      (
        length-append,
        length-be_bytes,
        length-flat (be_bytes 4) 4 b.sample_number
            (All-intro (λ v. length (be_bytes 4 v) ≡ 4) b.sample_number (length-be_bytes 4)),
      )
      (omega arith)

-- Every stss box of 32-bit numbers, small enough for a 32-bit size, is encoded number by number with
-- a header of `Size()` bytes in all, and is decoded from there to the same box.
pub stss_round_trip {ℓ} :
    {B : Type ℓ} (reg : Registry B) (inj : StssBox → B) (b : StssBox)
    → reg.decoders_sr (codes "stss") ≡ some (as_box inj decode_stss_sr)
    → IsValid b
    → Codec reg inj b (encode_stss_sw b) (encode_stss b) (stss_size b) (codes "stss") (payload b)
unfolding encode_stss encode_stss_sw decode_stss_sr stss_size
stss_round_trip reg inj b known v =
    let e : length b.sample_number % 2 ^ 32 ≡ length b.sample_number = omega (arith, v.fits) in
    rw e (
      codec reg inj (codes "stss") decode_stss_sr (expected_stss_size (length b.sample_number)) refl
        known (length-payload b) (unfold expected_stss_size in omega (arith, v.fits))
        (Writes-seq (Writes-uint32 _) (
          Writes-seq (Writes-uint32 _) (
            Writes-last (
              Writes-for_each write_uint32 (be_bytes 4) b.sample_number (
                All-intro (λ x. Writes (write_uint32 x) (be_bytes 4 x)) b.sample_number
                  Writes-uint32)))))
        (λ start_pos. Reads-bind _ (Reads-uint32 _ (version_and_flags-lt b.version b.flags)) (
          rw
            (
              version_of_lem b.version b.flags v.version v.flags,
              flags_of_lem b.version b.flags v.version v.flags,
            )
            (Reads-bind _ (Reads-uint32 _ (omega (arith, v.fits))) (
              Reads-fail_if _ _ (rw ==_self) (
                Reads-end _
                  (Reads-repeat read_uint32 (be_bytes 4) b.sample_number (
                    All-map IsUint32 (λ x. Reads read_uint32 (be_bytes 4 x) x) b.sample_number
                      Reads-uint32 v.numbers))
                  (Reads-pure b)))))))
