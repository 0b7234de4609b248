-- ===== src/SampleTable/Co64/RoundTrip.antt =====
-- A co64 box in a file: its count of chunks, and an offset of 64 bits for each.
use mp4ff.Base.{
  ℕ, ◌+◌, ◌*◌, ◌%◌, ◌^◌, ◌<◌, ◌≡◌, refl, some, Bytes, codes, ◌++◌, length, length-append,
  length-flat, arith, ==_self, All, All-intro, All-map, flat,
}
use mp4ff.Base.Words.{be_bytes, length-be_bytes, IsUint8, IsUint24, IsUint64}
use mp4ff.Bits.Reader.{finish}
use mp4ff.Bits.Writer.{write_uint64}
use mp4ff.Bits.Reads.{
  Reads, Reads-bind, Reads-end, Reads-finish, Reads-fail_if, Reads-uint32, Reads-uint64,
  Reads-repeat,
}
use mp4ff.Bits.Writes.{
  Writes, Writes-seq, Writes-last, Writes-uint32, Writes-uint64, Writes-for_each,
}
use mp4ff.Box.{Registry, as_box, version_and_flags}
use mp4ff.Box.Frame.{Codec, codec, version_of_lem, flags_of_lem, version_and_flags-lt}
use mp4ff.SampleTable.Co64.{
  Co64Box, read_offset, expected_co64_size, decode_co64_sr, co64_size, encode_co64_sw, encode_co64,
}

pub record IsValid (b : Co64Box) : Type 0 where
  pub version : IsUint8 b.version
  pub flags : IsUint24 b.flags
  pub offsets : All IsUint64 b.chunk_offset
  pub fits : 16 + length b.chunk_offset * 8 < 2 ^ 32

abbrev pub payload : Co64Box → Bytes
payload b =
    be_bytes 4 (version_and_flags b.version b.flags)
    ++ (be_bytes 4 (length b.chunk_offset) ++ flat (be_bytes 8) b.chunk_offset)

length-payload : (b : Co64Box) → 8 + length (payload b) ≡ expected_co64_size (length b.chunk_offset)
unfolding expected_co64_size
length-payload b =
    simp
      (
        length-append,
        length-be_bytes,
        length-flat (be_bytes 8) 8 b.chunk_offset
            (All-intro (λ v. length (be_bytes 8 v) ≡ 8) b.chunk_offset (length-be_bytes 8)),
      )
      (omega arith)

Reads-read_offset : (x : ℕ) → IsUint64 x → Reads read_offset (be_bytes 8 x) x
unfolding read_offset
Reads-read_offset x h = Reads-end finish (Reads-uint64 x h) (Reads-finish x)

-- Every co64 box of 64-bit offsets, small enough for a 32-bit size, is encoded offset by offset with
-- a header of `Size()` bytes in all, and is decoded from there to the same box.
pub co64_round_trip {ℓ} :
    {B : Type ℓ} (reg : Registry B) (inj : Co64Box → B) (b : Co64Box)
    → reg.decoders_sr (codes "co64") ≡ some (as_box inj decode_co64_sr)
    → IsValid b
    → Codec reg inj b (encode_co64_sw b) (encode_co64 b) (co64_size b) (codes "co64") (payload b)
unfolding encode_co64 encode_co64_sw decode_co64_sr co64_size
co64_round_trip reg inj b known v =
    let e : length b.chunk_offset % 2 ^ 32 ≡ length b.chunk_offset = omega (arith, v.fits) in
    rw e (
      codec reg inj (codes "co64") decode_co64_sr (expected_co64_size (length b.chunk_offset)) refl
        known (length-payload b) (unfold expected_co64_size in omega (arith, v.fits))
        (Writes-seq (Writes-uint32 _) (
          Writes-seq (Writes-uint32 _) (
            Writes-last (
              Writes-for_each write_uint64 (be_bytes 8) b.chunk_offset (
                All-intro (λ x. Writes (write_uint64 x) (be_bytes 8 x)) b.chunk_offset
                  Writes-uint64)))))
        (λ start_pos. Reads-bind _ (Reads-uint32 _ (version_and_flags-lt b.version b.flags)) (
          rw
            (
              version_of_lem b.version b.flags v.version v.flags,
              flags_of_lem b.version b.flags v.version v.flags,
            )
            (Reads-bind _ (Reads-uint32 _ (omega (arith, v.fits))) (
              Reads-fail_if _ _ (rw ==_self) (
                Reads-end _
                  (Reads-repeat read_offset (be_bytes 8) b.chunk_offset (
                    All-map IsUint64 (λ x. Reads read_offset (be_bytes 8 x) x) b.chunk_offset
                      Reads-read_offset v.offsets))
                  (Reads-finish b)))))))
