-- ===== src/Fragment/Trex.antt =====
-- mp4/trex.go: the sample defaults of a track.
pub mod RoundTrip
use mp4ff.Base.{ℕ, ◌+◌, Bytes, codes}
use mp4ff.Base.Action.{Result, Action, ◌>>=◌, ◌>>◌}
use mp4ff.Bits.Reader.{Reader, finish, read_uint32}
use mp4ff.Bits.Writer.{Writer, write_uint32, writer_error, encode_with}
use mp4ff.Box.{BoxHeader, encode_header_sw, version_and_flags, version_of, flags_of}

pub record TrexBox : Type 0 where
  pub version : ℕ
  pub flags : ℕ
  pub track_id : ℕ
  pub default_sample_description_index : ℕ
  pub default_sample_duration : ℕ
  pub default_sample_size : ℕ
  pub default_sample_flags : ℕ

pub create_trex : ℕ → TrexBox
create_trex track_id = record {
  version = 0;
  flags = 0;
  track_id = track_id;
  default_sample_description_index = 1;
  default_sample_duration = 0;
  default_sample_size = 0;
  default_sample_flags = 0;
}

unfoldable pub decode_trex_sr : BoxHeader → ℕ → Action Reader TrexBox
decode_trex_sr hdr start_pos = do
  word ← read_uint32
  track_id ← read_uint32
  index ← read_uint32
  duration ← read_uint32
  size ← read_uint32
  sample_flags ← read_uint32
  finish (record {
    version = version_of word;
    flags = flags_of word;
    track_id = track_id;
    default_sample_description_index = index;
    default_sample_duration = duration;
    default_sample_size = size;
    default_sample_flags = sample_flags;
  })

unfoldable pub trex_size : TrexBox → ℕ
trex_size b = 8 + 4 + 20

unfoldable pub encode_trex_sw : TrexBox → Action Writer (Unit {0})
encode_trex_sw b = do
  encode_header_sw (codes "trex") (trex_size b)
  write_uint32 (version_and_flags b.version b.flags)
  write_uint32 b.track_id
  write_uint32 b.default_sample_description_index
  write_uint32 b.default_sample_duration
  write_uint32 b.default_sample_size
  write_uint32 b.default_sample_flags
  writer_error

unfoldable pub encode_trex : TrexBox → Result Bytes
encode_trex b = encode_with (trex_size b) (encode_trex_sw b)
