-- ===== src/SampleTable/Stco.antt =====
-- mp4/stco.go: the file offsets of the chunks.
pub mod RoundTrip
use mp4ff.Base.{
  ℕ, zero, suc, ◌+◌, ◌*◌, ◌%◌, ◌^◌, Bool, not, ◌||◌, Option, none, some, List, Bytes, codes, length,
  get_elem?, ltb, ◌==◌, if◌then◌else◌,
}
use mp4ff.Base.Int.{ℤ, pos, negsuc}
use mp4ff.Base.Action.{
  Result, ok, err, Action, ◌>>=◌, ◌>>◌, fail_if, repeat, for_each, size_mismatch, bad_chunk,
}
use mp4ff.Bits.Reader.{Reader, finish, read_uint32}
use mp4ff.Bits.Writer.{Writer, write_uint32, writer_error, encode_with}
use mp4ff.Box.{BoxHeader, encode_header_sw, version_and_flags, version_of, flags_of}

pub record StcoBox : Type 0 where
  pub version : ℕ
  pub flags : ℕ
  pub chunk_offset : List ℕ

unfoldable pub expected_stco_size : ℕ → ℕ
expected_stco_size entry_count = 8 + 8 + entry_count * 4

unfoldable pub decode_stco_sr : BoxHeader → ℕ → Action Reader StcoBox
decode_stco_sr hdr start_pos = do
  word ← read_uint32
  entry_count ← read_uint32
  fail_if (not (hdr.size == expected_stco_size entry_count)) size_mismatch
  offsets ← repeat entry_count read_uint32
  finish (record { version = version_of word; flags = flags_of word; chunk_offset = offsets })

unfoldable pub stco_size : StcoBox → ℕ
stco_size b = expected_stco_size (length b.chunk_offset % 2 ^ 32)

unfoldable pub encode_stco_sw : StcoBox → Action Writer (Unit {0})
encode_stco_sw b = do
  encode_header_sw (codes "stco") (stco_size b)
  write_uint32 (version_and_flags b.version b.flags)
  write_uint32 (length b.chunk_offset % 2 ^ 32)
  for_each write_uint32 b.chunk_offset
  writer_error

unfoldable pub encode_stco : StcoBox → Result Bytes
encode_stco b = encode_with (stco_size b) (encode_stco_sw b)

-- `b.ChunkOffset[chunkNr-1]`, with the test on an `int` before it.
unfoldable pub get_offset : StcoBox → ℤ → Result ℕ
get_offset b (negsuc n) = err bad_chunk
get_offset b (pos zero) = err bad_chunk
get_offset b (pos (suc i)) = elim (get_elem? b.chunk_offset i) [
  | none ↦ err bad_chunk
  | some offset ↦ ok offset
]
