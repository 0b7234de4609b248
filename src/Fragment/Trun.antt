-- ===== src/Fragment/Trun.antt =====
-- mp4/trun.go and mp4/sample.go: a run of samples. The queries and the round trip are in child
-- modules.
pub mod RoundTrip
pub mod Queries
use mp4ff.Base.{
  ℕ, zero, suc, ◌+◌, ◌*◌, ◌%◌, ◌^◌, Bool, true, false, not, ◌&&◌, ◌||◌, List, [], ◌∷◌, Bytes, codes,
  length, take, ltb, ◌==◌, if◌then◌else◌,
}
use mp4ff.Base.Int.{ℤ, pos, negsuc}
use mp4ff.Base.Words.{has_bit}
use mp4ff.Base.Action.{
  Result, Action, ◌>>=◌, ◌>>◌, pure, when, fail_if, for_each, size_mismatch, no_sample_data, panic,
}
use mp4ff.Bits.Reader.{Reader, finish, read_uint32, read_int32}
use mp4ff.Bits.Writer.{Writer, write_uint32, write_int32, writer_error, encode_with}
use mp4ff.Box.{BoxHeader, encode_header_sw, version_and_flags, version_of, flags_of}

pub record Sample : Type 0 where
  pub flags : ℕ
  pub dur : ℕ
  pub size : ℕ
  pub composition_time_offset : ℤ

pub record TrunBox : Type 0 where
  pub version : ℕ
  pub flags : ℕ
  pub data_offset : ℤ
  pub first_sample_flags : ℕ
  pub samples : List Sample
  pub write_order_nr : ℕ

-- The presence flags, of the box's flags: 0x1, 0x4, 0x100, 0x200, 0x400 and 0x800.
unfoldable pub has_data_offset : ℕ → Bool
has_data_offset flags = has_bit 0 flags

unfoldable pub has_first_sample_flags : ℕ → Bool
has_first_sample_flags flags = has_bit 2 flags

unfoldable pub has_sample_duration : ℕ → Bool
has_sample_duration flags = has_bit 8 flags

unfoldable pub has_sample_size : ℕ → Bool
has_sample_size flags = has_bit 9 flags

unfoldable pub has_sample_flags : ℕ → Bool
has_sample_flags flags = has_bit 10 flags

unfoldable pub has_sample_composition_time_offset : ℕ → Bool
has_sample_composition_time_offset flags = has_bit 11 flags

abbrev pub sample_count : TrunBox → ℕ
sample_count t = length t.samples % 2 ^ 32

pub create_trun : ℕ → TrunBox
create_trun write_order_nr = record {
  version = 1;
  flags = 0xf01;
  data_offset = pos 0;
  first_sample_flags = 0;
  samples = [];
  write_order_nr = write_order_nr;
}

unfoldable pub bytes_per_sample : ℕ → ℕ
bytes_per_sample flags =
    (if has_sample_duration flags then 4 else 0)
    + (if has_sample_size flags then 4 else 0)
    + (if has_sample_flags flags then 4 else 0)
    + (if has_sample_composition_time_offset flags then 4 else 0)

unfoldable pub expected_trun_size : ℕ → ℕ → ℕ
expected_trun_size flags sample_count =
    8
    + 8
    + (if has_data_offset flags then 4 else 0)
    + (if has_first_sample_flags flags then 4 else 0)
    + sample_count * bytes_per_sample flags

unfoldable pub trun_size : TrunBox → ℕ
trun_size t = expected_trun_size t.flags (sample_count t)

unfoldable pub has_no_sample_data : ℕ → Bool
has_no_sample_data flags =
    not (has_sample_duration flags)
    && not (has_sample_size flags)
    && not (has_sample_flags flags)
    && not (has_sample_composition_time_offset flags)

-- `t.DataOffset == 0`
abbrev pub is_zero : ℤ → Bool
is_zero (pos n) = n == 0
is_zero (negsuc n) = false

-- The flags of a sample for which no flags are stored; `is_first` is `i == 0`.
abbrev pub implied_flags : ℕ → ℕ → Bool → ℕ
implied_flags flags first_flags is_first =
    if has_first_sample_flags flags && is_first then first_flags else 0

unfoldable pub read_sample : ℕ → ℕ → Bool → Action Reader Sample
read_sample flags first_flags is_first = do
  dur ← when (has_sample_duration flags) 0 read_uint32
  size ← when (has_sample_size flags) 0 read_uint32
  sample_flags ←
      when (has_sample_flags flags) (implied_flags flags first_flags is_first) read_uint32
  cto ← when (has_sample_composition_time_offset flags) (pos 0) read_int32
  pure (record { flags = sample_flags; dur = dur; size = size; composition_time_offset = cto })

-- The loop over the samples, with the number of those that are left.
unfoldable pub read_samples : ℕ → ℕ → Bool → ℕ → Action Reader (List Sample)
read_samples flags first_flags is_first zero = pure []
read_samples flags first_flags is_first (suc n) = do
  s ← read_sample flags first_flags is_first
  rest ← read_samples flags first_flags false n
  pure (s ∷ rest)

unfoldable pub decode_trun_sr : BoxHeader → ℕ → Action Reader TrunBox
decode_trun_sr hdr start_pos = do
  word ← read_uint32
  sample_count ← read_uint32
  let flags = flags_of word
  fail_if (not (hdr.size == expected_trun_size flags sample_count)) size_mismatch
  fail_if (ltb 1024 sample_count && has_no_sample_data flags) no_sample_data
  data_offset ← when (has_data_offset flags) (pos 0) read_int32
  first_flags ← when (has_first_sample_flags flags) 0 read_uint32
  samples ← read_samples flags first_flags true sample_count
  finish (record {
    version = version_of word;
    flags = flags;
    data_offset = data_offset;
    first_sample_flags = first_flags;
    samples = samples;
    write_order_nr = 0;
  })

unfoldable pub write_sample : ℕ → Sample → Action Writer (Unit {0})
write_sample flags s = do
  when (has_sample_duration flags) tt (write_uint32 s.dur)
  when (has_sample_size flags) tt (write_uint32 s.size)
  when (has_sample_flags flags) tt (write_uint32 s.flags)
  when (has_sample_composition_time_offset flags) tt (write_int32 s.composition_time_offset)

unfoldable pub encode_trun_sw : TrunBox → Action Writer (Unit {0})
encode_trun_sw t = do
  encode_header_sw (codes "trun") (trun_size t)
  write_uint32 (version_and_flags t.version t.flags)
  write_uint32 (sample_count t)
  when (has_data_offset t.flags) tt
      (fail_if (is_zero t.data_offset) panic >> write_int32 t.data_offset)
  when (has_first_sample_flags t.flags) tt (write_uint32 t.first_sample_flags)
  for_each (write_sample t.flags) (take (sample_count t) t.samples)
  writer_error

unfoldable pub encode_trun : TrunBox → Result Bytes
encode_trun t = encode_with (trun_size t) (encode_trun_sw t)
