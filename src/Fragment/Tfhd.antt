-- ===== src/Fragment/Tfhd.antt =====
-- mp4/tfhd.go: the track fragment header, whose flags say which of its fields are present.
pub mod RoundTrip
use mp4ff.Base.{ℕ, ◌+◌, Bool, Bytes, codes, if◌then◌else◌}
use mp4ff.Base.Words.{has_bit}
use mp4ff.Base.Action.{Result, Action, ◌>>=◌, ◌>>◌, when}
use mp4ff.Bits.Reader.{Reader, finish, read_uint32, read_uint64}
use mp4ff.Bits.Writer.{Writer, write_uint32, write_uint64, writer_error, encode_with}
use mp4ff.Box.{BoxHeader, encode_header_sw, version_and_flags, version_of, flags_of}

pub record TfhdBox : Type 0 where
  pub version : ℕ
  pub flags : ℕ
  pub track_id : ℕ
  pub base_data_offset : ℕ
  pub sample_description_index : ℕ
  pub default_sample_duration : ℕ
  pub default_sample_size : ℕ
  pub default_sample_flags : ℕ

-- The presence flags, of the box's flags: 0x000001, 0x000002, 0x000008, 0x000010, 0x000020,
-- 0x010000 and 0x020000.
unfoldable pub has_base_data_offset : ℕ → Bool
has_base_data_offset flags = has_bit 0 flags

unfoldable pub has_sample_description_index : ℕ → Bool
has_sample_description_index flags = has_bit 1 flags

unfoldable pub has_default_sample_duration : ℕ → Bool
has_default_sample_duration flags = has_bit 3 flags

unfoldable pub has_default_sample_size : ℕ → Bool
has_default_sample_size flags = has_bit 4 flags

unfoldable pub has_default_sample_flags : ℕ → Bool
has_default_sample_flags flags = has_bit 5 flags

unfoldable pub duration_is_empty : ℕ → Bool
duration_is_empty flags = has_bit 16 flags

unfoldable pub default_base_if_moof : ℕ → Bool
default_base_if_moof flags = has_bit 17 flags

unfoldable pub create_tfhd : ℕ → TfhdBox
create_tfhd track_id = record {
  version = 0;
  flags = 0x020000;
  track_id = track_id;
  base_data_offset = 0;
  sample_description_index = 1;
  default_sample_duration = 0;
  default_sample_size = 0;
  default_sample_flags = 0;
}

unfoldable pub decode_tfhd_sr : BoxHeader → ℕ → Action Reader TfhdBox
decode_tfhd_sr hdr start_pos = do
  word ← read_uint32
  let flags = flags_of word
  track_id ← read_uint32
  offset ← when (has_base_data_offset flags) 0 read_uint64
  index ← when (has_sample_description_index flags) 0 read_uint32
  duration ← when (has_default_sample_duration flags) 0 read_uint32
  size ← when (has_default_sample_size flags) 0 read_uint32
  sample_flags ← when (has_default_sample_flags flags) 0 read_uint32
  finish (record {
    version = version_of word;
    flags = flags;
    track_id = track_id;
    base_data_offset = offset;
    sample_description_index = index;
    default_sample_duration = duration;
    default_sample_size = size;
    default_sample_flags = sample_flags;
  })

unfoldable pub tfhd_size : TfhdBox → ℕ
tfhd_size t =
    8
    + 8
    + (if has_base_data_offset t.flags then 8 else 0)
    + (if has_sample_description_index t.flags then 4 else 0)
    + (if has_default_sample_duration t.flags then 4 else 0)
    + (if has_default_sample_size t.flags then 4 else 0)
    + (if has_default_sample_flags t.flags then 4 else 0)

unfoldable pub encode_tfhd_sw : TfhdBox → Action Writer (Unit {0})
encode_tfhd_sw t = do
  encode_header_sw (codes "tfhd") (tfhd_size t)
  write_uint32 (version_and_flags t.version t.flags)
  write_uint32 t.track_id
  when (has_base_data_offset t.flags) tt (write_uint64 t.base_data_offset)
  when (has_sample_description_index t.flags) tt (write_uint32 t.sample_description_index)
  when (has_default_sample_duration t.flags) tt (write_uint32 t.default_sample_duration)
  when (has_default_sample_size t.flags) tt (write_uint32 t.default_sample_size)
  when (has_default_sample_flags t.flags) tt (write_uint32 t.default_sample_flags)
  writer_error

unfoldable pub encode_tfhd : TfhdBox → Result Bytes
encode_tfhd t = encode_with (tfhd_size t) (encode_tfhd_sw t)
