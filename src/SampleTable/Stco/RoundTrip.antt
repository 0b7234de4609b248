-- ===== src/SampleTable/Stco/RoundTrip.antt =====
-- An stco box in a file: its count of chunks, and an offset for each.
use mp4ff.Base.{
  ◌+◌, ◌*◌, ◌%◌, ◌^◌, ◌<◌, ◌≡◌, refl, some, Bytes, codes, ◌++◌, length, length-append, length-flat,
  arith, ==_self, All, All-intro, All-map, flat,
}
use mp4ff.Base.Words.{be_bytes, length-be_bytes, IsUint8, IsUint24, IsUint32}
use mp4ff.Bits.Reader.{read_uint32}
use mp4ff.Bits.Writer.{write_uint32}
use mp4ff.Bits.Reads.{
  Reads, Reads-bind, Reads-end, Reads-finish, Reads-fail_if, Reads-uint32, Reads-repeat,
}
use mp4ff.Bits.Writes.{Writes, Writes-seq, Writes-last, Writes-uint32, Writes-for_each}
use mp4ff.Box.{Registry, as_box, version_and_flags}
use mp4ff.Box.Frame.{Codec, codec, version_of_lem, flags_of_lem, version_and_flags-lt}
use mp4ff.SampleTable.Stco.{
  StcoBox, expected_stco_size, decode_stco_sr, stco_size, encode_stco_sw, encode_stco,
}

pub record IsValid (b : StcoBox) : Type 0 where
  pub version : IsUint8 b.version
  pub flags : IsUint24 b.flags
  pub offsets : All IsUint32 b.chunk_offset
  pub fits : 16 + length b.chunk_offset * 4 < 2 ^ 32

abbrev pub payload : StcoBox → Bytes
payload b =
    be_bytes 4 (version_and_flags b.version b.flags)
    ++ (be_bytes 4 (length b.chunk_offset) ++ flat (be_bytes 4) b.chunk_offset)

length-payload : (b : StcoBox) → 8 + length (payload b) ≡ expected_stco_size (length b.chunk_offset)
unfolding expected_stco_size
length-payload b =
    simp
      (
        length-append,
        length-be_bytes,
        length-flat (be_bytes 4) 4 b.chunk_offset
            (All-intro (λ v. length (be_bytes 4 v) ≡ 4) b.chunk_offset (length-be_bytes 4)),
      )
      (omega arith)

-- Every stco box of 32-bit offsets, small enough for a 32-bit size, is encoded offset by offset with
-- a header of `Size()` bytes in all, and is decoded from there to the same box.
pub stco_round_trip {ℓ} :
    {B : Type ℓ} (reg : Registry B) (inj : StcoBox → B) (b : StcoBox)
    → reg.decoders_sr (codes "stco") ≡ some (as_box inj decode_stco_sr)
    → IsValid b
    → Codec reg inj b (encode_stco_sw b) (encode_stco b) (stco_size b) (codes "stco") (payload b)
unfolding encode_stco encode_stco_sw decode_stco_sr stco_size
stco_round_trip reg inj b known v =
    let e : length b.chunk_offset % 2 ^ 32 ≡ length b.chunk_offset = omega (arith, v.fits) in
    rw e (
      codec reg inj (codes "stco") decode_stco_sr (expected_stco_size (length b.chunk_offset)) refl
        known (length-payload b) (unfold expected_stco_size in omega (arith, v.fits))
        (Writes-seq (Writes-uint32 _) (
          Writes-seq (Writes-uint32 _) (
            Writes-last (
              Writes-for_each write_uint32 (be_bytes 4) b.chunk_offset (
                All-intro (λ x. Writes (write_uint32 x) (be_bytes 4 x)) b.chunk_offset
                  Writes-uint32)))))
        (λ start_pos. Reads-bind _ (Reads-uint32 _ (version_and_flags-lt b.version b.flags)) (
          rw
            (
              version_of_lem b.version b.flags v.version v.flags,
              flags_of_lem b.version b.flags v.version v.flags,
            )
            (Reads-bind _ (Reads-uint32 _ (omega (arith, v.fits))) (
              Reads-fail_if _ _ (rw ==_self) (
                Reads-end _
                  (Reads-repeat read_uint32 (be_bytes 4) b.chunk_offset (
                    All-map IsUint32 (λ x. Reads read_uint32 (be_bytes 4 x) x) b.chunk_offset
                      Reads-uint32 v.offsets))
                  (Reads-finish b)))))))
