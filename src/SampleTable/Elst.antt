-- ===== src/SampleTable/Elst.antt =====
-- mp4/elst.go: the edit list of a track, with times of 32 bits under version 0 and of 64 under 1.
pub mod RoundTrip
use mp4ff.Base.{ℕ, ◌+◌, ◌*◌, ◌%◌, ◌^◌, not, List, Bytes, codes, length, ◌==◌, if◌then◌else◌}
use mp4ff.Base.Int.{ℤ}
use mp4ff.Base.Action.{
  Result, Action, ◌>>=◌, ◌>>◌, pure, fail, fail_if, repeat, for_each, size_mismatch,
  unknown_version,
}
use mp4ff.Bits.Reader.{Reader, finish, read_uint32, read_uint64, read_int16, read_int32, read_int64}
use mp4ff.Bits.Writer.{
  Writer, write_uint32, write_uint64, write_int16, write_int32, write_int64, writer_error,
  encode_with,
}
use mp4ff.Box.{BoxHeader, encode_header_sw, version_and_flags, version_of, flags_of}

pub record ElstEntry : Type 0 where
  pub segment_duration : ℕ
  pub media_time : ℤ
  pub media_rate_integer : ℤ
  pub media_rate_fraction : ℤ

pub record ElstBox : Type 0 where
  pub version : ℕ
  pub flags : ℕ
  pub entries : List ElstEntry

unfoldable pub expected_elst_size : ℕ → ℕ → ℕ
expected_elst_size version entry_count =
    if version == 1 then 8 + 8 + entry_count * 20 else 8 + 8 + entry_count * 12

-- One round of the decoder's loop under version 1, and under version 0.
unfoldable pub read_long_entry : Action Reader ElstEntry
read_long_entry = do
  duration ← read_uint64
  time ← read_int64
  whole ← read_int16
  fraction ← read_int16
  pure (record {
    segment_duration = duration;
    media_time = time;
    media_rate_integer = whole;
    media_rate_fraction = fraction;
  })

unfoldable pub read_short_entry : Action Reader ElstEntry
read_short_entry = do
  duration ← read_uint32
  time ← read_int32
  whole ← read_int16
  fraction ← read_int16
  pure (record {
    segment_duration = duration;
    media_time = time;
    media_rate_integer = whole;
    media_rate_fraction = fraction;
  })

unfoldable pub decode_elst_sr : BoxHeader → ℕ → Action Reader ElstBox
decode_elst_sr hdr start_pos = do
  word ← read_uint32
  entry_count ← read_uint32
  fail_if (not (hdr.size == expected_elst_size (version_of word) entry_count)) size_mismatch
  entries ←
      (if version_of word == 1
        then repeat entry_count read_long_entry
        else if version_of word == 0
        then repeat entry_count read_short_entry
        else fail unknown_version)
  finish (record { version = version_of word; flags = flags_of word; entries = entries })

unfoldable pub elst_size : ElstBox → ℕ
elst_size b = expected_elst_size b.version (length b.entries % 2 ^ 32)

-- One round of the encoder's loop under version 1, and under any other version.
unfoldable pub write_long_entry : ElstEntry → Action Writer (Unit {0})
write_long_entry e = do
  write_uint64 e.segment_duration
  write_int64 e.media_time
  write_int16 e.media_rate_integer
  write_int16 e.media_rate_fraction

unfoldable pub write_short_entry : ElstEntry → Action Writer (Unit {0})
write_short_entry e = do
  write_uint32 (e.segment_duration % 2 ^ 32)
  write_int32 e.media_time
  write_int16 e.media_rate_integer
  write_int16 e.media_rate_fraction

unfoldable pub encode_elst_sw : ElstBox → Action Writer (Unit {0})
encode_elst_sw b = do
  encode_header_sw (codes "elst") (elst_size b)
  write_uint32 (version_and_flags b.version b.flags)
  write_uint32 (length b.entries % 2 ^ 32)
  (if b.version == 1
      then for_each write_long_entry b.entries
      else for_each write_short_entry b.entries)
  writer_error

unfoldable pub encode_elst : ElstBox → Result Bytes
encode_elst b = encode_with (elst_size b) (encode_elst_sw b)
