-- ===== src/SampleTable/Stsz.antt =====
-- mp4/stsz.go: the sizes of the samples, all equal or one by one.
pub mod RoundTrip
pub mod Sizes
use mp4ff.Base.{
  ℕ, zero, suc, ◌+◌, ◌-◌, ◌*◌, ◌%◌, ◌^◌, Bool, true, false, not, ◌||◌, Option, none, some, List, [],
  ◌∷◌, Bytes, codes, length, get_elem?, ltb, leb, ◌==◌, if◌then◌else◌,
}
use mp4ff.Base.Action.{
  Result, ok, err, Action, ◌>>=◌, ◌>>◌, pure, when, fail_if, repeat, for_each, size_mismatch,
  bad_interval,
}
use mp4ff.Bits.Reader.{Reader, finish, read_uint32}
use mp4ff.Bits.Writer.{Writer, write_uint32, writer_error, encode_with}
use mp4ff.Box.{BoxHeader, encode_header_sw, version_and_flags, version_of, flags_of}

pub record StszBox : Type 0 where
  pub version : ℕ
  pub flags : ℕ
  pub sample_uniform_size : ℕ
  pub sample_number : ℕ
  pub sample_size : List ℕ

unfoldable pub expected_stsz_size : ℕ → ℕ → ℕ
expected_stsz_size uniform_size sample_number =
    if ltb 0 uniform_size then 8 + 12 else 8 + 12 + sample_number * 4

unfoldable pub decode_stsz_sr : BoxHeader → ℕ → Action Reader StszBox
decode_stsz_sr hdr start_pos = do
  word ← read_uint32
  uniform_size ← read_uint32
  sample_number ← read_uint32
  fail_if (not (hdr.size == expected_stsz_size uniform_size sample_number)) size_mismatch
  sizes ← when (uniform_size == 0) [] (repeat sample_number read_uint32)
  finish (record {
    version = version_of word;
    flags = flags_of word;
    sample_uniform_size = uniform_size;
    sample_number = sample_number;
    sample_size = sizes;
  })

unfoldable pub stsz_size : StszBox → ℕ
stsz_size b = expected_stsz_size b.sample_uniform_size b.sample_number

unfoldable pub encode_stsz_sw : StszBox → Action Writer (Unit {0})
encode_stsz_sw b = do
  encode_header_sw (codes "stsz") (stsz_size b)
  write_uint32 (version_and_flags b.version b.flags)
  write_uint32 b.sample_uniform_size
  (if length b.sample_size == 0
      then write_uint32 b.sample_number
      else write_uint32 (length b.sample_size % 2 ^ 32) >> for_each write_uint32 b.sample_size)
  writer_error

unfoldable pub encode_stsz : StszBox → Result Bytes
encode_stsz b = encode_with (stsz_size b) (encode_stsz_sw b)

unfoldable pub get_nr_samples : StszBox → ℕ
get_nr_samples b =
    if length b.sample_size == 0 then b.sample_number else length b.sample_size % 2 ^ 32

-- `none` is the panic on the index -1, at `i == 0`.
unfoldable pub get_sample_size : StszBox → ℕ → Option ℕ
get_sample_size b zero = none
get_sample_size b (suc i) =
    if ltb (length b.sample_size) (suc i)
    then some b.sample_uniform_size
    else get_elem? b.sample_size i

-- `for nr := startNr; nr <= endNr; nr++`, with the rounds left; `nr` is the zero-based index.
unfoldable pub sum_sizes : ℕ → ℕ → ℕ → List ℕ → Option ℕ
sum_sizes zero nr size sizes = some size
sum_sizes (suc n) nr size sizes = elim (get_elem? sizes nr) [
  | none ↦ none
  | some s ↦ sum_sizes n (suc nr) ((size + s) % 2 ^ 64) sizes
]

-- The one-based interval from `start_nr` to `end_nr`; `none` is a panic on an index out of range,
-- which the loop also ends with when `nr` wraps around behind the last uint32.
unfoldable pub get_total_sample_size : StszBox → ℕ → ℕ → Option (Result ℕ)
get_total_sample_size b start_nr end_nr =
    if leb start_nr 0 || ltb b.sample_number end_nr
    then some (err bad_interval)
    else if ltb end_nr start_nr
    then some (ok 0)
    else if not (b.sample_uniform_size == 0)
    then some (ok ((end_nr - start_nr + 1) * b.sample_uniform_size % 2 ^ 64))
    else if end_nr == 2 ^ 32 - 1
    then none
    else elim (sum_sizes (end_nr - start_nr + 1) (start_nr - 1) 0 b.sample_size) [
      | none ↦ none
      | some size ↦ some (ok size)
    ]
