-- ===== src/SampleTable/Stss.antt =====
-- mp4/stss.go: the numbers of the sync samples. The decoder returns no reader error, since the size test
-- has made sure of the bytes.
pub mod RoundTrip
pub mod Lookup
use mp4ff.SampleTable.Search.{search_index}
use mp4ff.Base.{
  ℕ, zero, suc, ◌+◌, ◌*◌, ◌%◌, ◌^◌, Bool, not, ◌||◌, Option, none, some, List, Bytes, codes, length,
  get_or, ◌&&◌, ltb, ◌==◌, if◌then◌else◌,
}
use mp4ff.Base.Int.{ℤ, pos, negsuc}
use mp4ff.Base.Action.{
  Result, ok, err, Action, ◌>>=◌, ◌>>◌, fail_if, pure, repeat, for_each, size_mismatch, bad_chunk,
}
use mp4ff.Bits.Reader.{Reader, read_uint32}
use mp4ff.Bits.Writer.{Writer, write_uint32, writer_error, encode_with}
use mp4ff.Box.{BoxHeader, encode_header_sw, version_and_flags, version_of, flags_of}

pub record StssBox : Type 0 where
  pub version : ℕ
  pub flags : ℕ
  pub sample_number : List ℕ

unfoldable pub expected_stss_size : ℕ → ℕ
expected_stss_size entry_count = 8 + 8 + entry_count * 4

unfoldable pub decode_stss_sr : BoxHeader → ℕ → Action Reader StssBox
decode_stss_sr hdr start_pos = do
  word ← read_uint32
  entry_count ← read_uint32
  fail_if (not (hdr.size == expected_stss_size entry_count)) size_mismatch
  numbers ← repeat entry_count read_uint32
  pure (record { version = version_of word; flags = flags_of word; sample_number = numbers })

unfoldable pub stss_size : StssBox → ℕ
stss_size b = expected_stss_size (length b.sample_number % 2 ^ 32)

unfoldable pub encode_stss_sw : StssBox → Action Writer (Unit {0})
encode_stss_sw b = do
  encode_header_sw (codes "stss") (stss_size b)
  write_uint32 (version_and_flags b.version b.flags)
  write_uint32 (length b.sample_number % 2 ^ 32)
  for_each write_uint32 b.sample_number
  writer_error

unfoldable pub encode_stss : StssBox → Result Bytes
encode_stss b = encode_with (stss_size b) (encode_stss_sw b)

-- Binary search for the one-based `sample_nr`. In the search an index is always in range.
unfoldable pub is_sync_sample : StssBox → ℕ → Bool
is_sync_sample b sample_nr =
    let nr_samples = length b.sample_number in
    let i = search_index (λ h. ltb (get_or b.sample_number h 0) sample_nr) 0 nr_samples in
    ltb i nr_samples && get_or b.sample_number i 0 == sample_nr
