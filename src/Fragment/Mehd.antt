-- ===== src/Fragment/Mehd.antt =====
-- mp4/mehd.go: the duration of a fragmented movie. `Size()` and `EncodeSW` agree at every version.
pub mod RoundTrip
use mp4ff.Base.{ℕ, ◌+◌, Bytes, codes, ◌==◌, if◌then◌else◌}
use mp4ff.Base.Int.{ℤ, uint32, uint64}
use mp4ff.Base.Action.{Result, Action, ◌>>=◌, ◌>>◌}
use mp4ff.Bits.Reader.{Reader, finish, read_uint32, read_int32, read_int64}
use mp4ff.Bits.Writer.{Writer, write_uint32, write_uint64, writer_error, encode_with}
use mp4ff.Box.{BoxHeader, encode_header_sw, version_and_flags, version_of, flags_of}

pub record MehdBox : Type 0 where
  pub version : ℕ
  pub flags : ℕ
  pub fragment_duration : ℤ

unfoldable pub decode_mehd_sr : BoxHeader → ℕ → Action Reader MehdBox
decode_mehd_sr hdr start_pos = do
  word ← read_uint32
  duration ← (if version_of word == 0 then read_int32 else read_int64)
  finish (record { version = version_of word; flags = flags_of word; fragment_duration = duration })

unfoldable pub mehd_size : MehdBox → ℕ
mehd_size b = 8 + 4 + (if b.version == 0 then 4 else 8)

unfoldable pub encode_mehd_sw : MehdBox → Action Writer (Unit {0})
encode_mehd_sw b = do
  encode_header_sw (codes "mehd") (mehd_size b)
  write_uint32 (version_and_flags b.version b.flags)
  (if b.version == 0
      then write_uint32 (uint32 b.fragment_duration)
      else write_uint64 (uint64 b.fragment_duration))
  writer_error

unfoldable pub encode_mehd : MehdBox → Result Bytes
encode_mehd b = encode_with (mehd_size b) (encode_mehd_sw b)
