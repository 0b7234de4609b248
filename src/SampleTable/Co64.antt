-- ===== src/SampleTable/Co64.antt =====
-- mp4/co64.go: the file offsets of the chunks, of 64 bits.
pub mod RoundTrip
use mp4ff.Base.{
  ℕ, zero, suc, ◌+◌, ◌*◌, ◌%◌, ◌^◌, Bool, not, ◌||◌, Option, none, some, List, Bytes, codes, length,
  get_elem?, ltb, ◌==◌, if◌then◌else◌,
}
use mp4ff.Base.Int.{ℤ, pos, negsuc}
use mp4ff.Base.Action.{
  Result, ok, err, Action, ◌>>=◌, ◌>>◌, fail_if, repeat, for_each, size_mismatch, bad_chunk,
}
use mp4ff.Bits.Reader.{Reader, finish, read_uint32, read_uint64}
use mp4ff.Bits.Writer.{Writer, write_uint32, write_uint64, writer_error, encode_with}
use mp4ff.Box.{BoxHeader, encode_header_sw, version_and_flags, version_of, flags_of}

pub record Co64Box : Type 0 where
  pub version : ℕ
  pub flags : ℕ
  pub chunk_offset : List ℕ

unfoldable pub expected_co64_size : ℕ → ℕ
expected_co64_size nr_entries = 8 + 8 + nr_entries * 8

-- One round of the decoder's loop, which returns on the first error.
unfoldable pub read_offset : Action Reader ℕ
read_offset = read_uint64 >>= finish

unfoldable pub decode_co64_sr : BoxHeader → ℕ → Action Reader Co64Box
decode_co64_sr hdr start_pos = do
  word ← read_uint32
  nr_entries ← read_uint32
  fail_if (not (hdr.size == expected_co64_size nr_entries)) size_mismatch
  offsets ← repeat nr_entries read_offset
  finish (record { version = version_of word; flags = flags_of word; chunk_offset = offsets })

unfoldable pub co64_size : Co64Box → ℕ
co64_size b = expected_co64_size (length b.chunk_offset % 2 ^ 32)

unfoldable pub encode_co64_sw : Co64Box → Action Writer (Unit {0})
encode_co64_sw b = do
  encode_header_sw (codes "co64") (co64_size b)
  write_uint32 (version_and_flags b.version b.flags)
  write_uint32 (length b.chunk_offset % 2 ^ 32)
  for_each write_uint64 b.chunk_offset
  writer_error

unfoldable pub encode_co64 : Co64Box → Result Bytes
encode_co64 b = encode_with (co64_size b) (encode_co64_sw b)

-- `b.ChunkOffset[chunkNr-1]`, with the test on an `int` before it.
unfoldable pub get_co64_offset : Co64Box → ℤ → Result ℕ
get_co64_offset b (negsuc n) = err bad_chunk
get_co64_offset b (pos zero) = err bad_chunk
get_co64_offset b (pos (suc i)) = elim (get_elem? b.chunk_offset i) [
  | none ↦ err bad_chunk
  | some offset ↦ ok offset
]
