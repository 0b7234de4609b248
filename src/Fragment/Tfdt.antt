-- ===== src/Fragment/Tfdt.antt =====
-- mp4/tfdt.go: the decode time of a track fragment.
pub mod RoundTrip
use mp4ff.Base.{ℕ, ◌+◌, ◌*◌, ◌%◌, ◌^◌, Bytes, codes, leb, ◌==◌, if◌then◌else◌}
use mp4ff.Base.Action.{Result, Action, ◌>>=◌, ◌>>◌}
use mp4ff.Bits.Reader.{Reader, finish, read_uint32, read_uint64}
use mp4ff.Bits.Writer.{Writer, write_uint32, write_uint64, writer_error, encode_with}
use mp4ff.Box.{BoxHeader, encode_header_sw, version_and_flags, version_of, flags_of}

pub record TfdtBox : Type 0 where
  pub version : ℕ
  pub flags : ℕ
  pub base_media_decode_time : ℕ

unfoldable pub decode_tfdt_sr : BoxHeader → ℕ → Action Reader TfdtBox
decode_tfdt_sr hdr start_pos = do
  word ← read_uint32
  time ← (if version_of word == 0 then read_uint32 else read_uint64)
  finish
      (record { version = version_of word; flags = flags_of word; base_media_decode_time = time })

unfoldable pub create_tfdt : ℕ → TfdtBox
create_tfdt time = record {
  version = if leb 4294967296 time then 1 else 0;
  flags = 0;
  base_media_decode_time = time;
}

unfoldable pub set_base_media_decode_time : TfdtBox → ℕ → TfdtBox
set_base_media_decode_time t time = record t {
  version = if leb 4294967296 time then 1 else 0;
  base_media_decode_time = time;
}

unfoldable pub tfdt_size : TfdtBox → ℕ
tfdt_size t = 8 + 8 + 4 * t.version

unfoldable pub encode_tfdt_sw : TfdtBox → Action Writer (Unit {0})
encode_tfdt_sw t = do
  encode_header_sw (codes "tfdt") (tfdt_size t)
  write_uint32 (version_and_flags t.version t.flags)
  (if t.version == 0
      then write_uint32 (t.base_media_decode_time % 2 ^ 32)
      else write_uint64 t.base_media_decode_time)
  writer_error

unfoldable pub encode_tfdt : TfdtBox → Result Bytes
encode_tfdt t = encode_with (tfdt_size t) (encode_tfdt_sw t)
