-- ===== src/Fragment/Mfhd.antt =====
-- mp4/mfhd.go: the movie fragment header.
pub mod RoundTrip
use mp4ff.Base.{ℕ, ◌+◌, Bytes, codes}
use mp4ff.Base.Action.{Result, Action, ◌>>=◌, ◌>>◌}
use mp4ff.Bits.Reader.{Reader, finish, read_uint32}
use mp4ff.Bits.Writer.{Writer, write_uint32, writer_error, encode_with}
use mp4ff.Box.{BoxHeader, encode_header_sw, version_and_flags, version_of, flags_of}

pub record MfhdBox : Type 0 where
  pub version : ℕ
  pub flags : ℕ
  pub sequence_number : ℕ

unfoldable pub decode_mfhd_sr : BoxHeader → ℕ → Action Reader MfhdBox
decode_mfhd_sr hdr start_pos = do
  word ← read_uint32
  sequence_number ← read_uint32
  finish (record {
    version = version_of word;
    flags = flags_of word;
    sequence_number = sequence_number;
  })

pub create_mfhd : ℕ → MfhdBox
create_mfhd sequence_number = record { version = 0; flags = 0; sequence_number = sequence_number }

unfoldable pub mfhd_size : MfhdBox → ℕ
mfhd_size m = 8 + 8

unfoldable pub encode_mfhd_sw : MfhdBox → Action Writer (Unit {0})
encode_mfhd_sw m = do
  encode_header_sw (codes "mfhd") (mfhd_size m)
  write_uint32 (version_and_flags m.version m.flags)
  write_uint32 m.sequence_number
  writer_error

unfoldable pub encode_mfhd : MfhdBox → Result Bytes
encode_mfhd m = encode_with (mfhd_size m) (encode_mfhd_sw m)
