-- ===== src/SampleTable/Ctts.antt =====
-- mp4/ctts.go: the composition time offsets of the samples, in runs of equal ones. The box keeps for
-- each run the number of its last sample.
pub mod Entries
pub mod RoundTrip
pub mod Lookup
use mp4ff.Base.{
  ℕ, zero, suc, ◌+◌, ◌-◌, ◌*◌, ◌%◌, ◌^◌, not, Option, none, some, List, [], ◌∷◌, ◌++◌, map, Bytes,
  codes, length, get_elem?, get_or, ltb, ◌==◌, if◌then◌else◌,
}
use mp4ff.Base.Int.{ℤ}
use mp4ff.Base.Action.{
  Result, ok, err, Action, ◌>>=◌, ◌>>◌, pure, fail, fail_if, repeat, size_mismatch, counts_differ,
  panic,
}
use mp4ff.Bits.Reader.{Reader, finish, read_uint32, read_int32}
use mp4ff.Bits.Writer.{Writer, write_uint32, write_int32, writer_error, encode_with}
use mp4ff.Box.{BoxHeader, encode_header_sw, version_and_flags, version_of, flags_of}
use mp4ff.SampleTable.Search.{search_index}

pub record CttsBox : Type 0 where
  pub version : ℕ
  pub flags : ℕ
  pub end_sample_nr : List ℕ
  pub sample_offset : List ℤ

unfoldable pub expected_ctts_size : ℕ → ℕ
expected_ctts_size entry_count = 8 + 8 + entry_count * 8

-- `endSampleNr += count`, appended for every count.
unfoldable pub running_ends : ℕ → List ℕ → List ℕ
running_ends end_sample_nr [] = []
running_ends end_sample_nr (c ∷ cs) =
    (end_sample_nr + c) % 2 ^ 32 ∷ running_ends ((end_sample_nr + c) % 2 ^ 32) cs

-- The two reads of one round.
unfoldable pub read_ctts_entry : Action Reader (ℕ × ℤ)
read_ctts_entry = do count ← read_uint32; offset ← read_int32; pure (count, offset)

unfoldable pub decode_ctts_sr : BoxHeader → ℕ → Action Reader CttsBox
decode_ctts_sr hdr start_pos = do
  word ← read_uint32
  entry_count ← read_uint32
  fail_if (not (hdr.size == expected_ctts_size entry_count)) size_mismatch
  entries ← repeat entry_count read_ctts_entry
  finish (record {
    version = version_of word;
    flags = flags_of word;
    end_sample_nr = 0 ∷ running_ends 0 (map (λ e. e.0) entries);
    sample_offset = map (λ e. e.1) entries;
  })

unfoldable pub ctts_size : CttsBox → ℕ
ctts_size b = expected_ctts_size (length b.sample_offset % 2 ^ 32)

-- The loop over the offsets, with `b.EndSampleNr` from the index `i` on.
unfoldable pub write_ctts_entries : List ℕ → List ℤ → Action Writer (Unit {0})
write_ctts_entries ends [] = pure tt
write_ctts_entries [] (o ∷ os) = fail panic
write_ctts_entries (e ∷ []) (o ∷ os) = fail panic
write_ctts_entries (e ∷ e' ∷ ends) (o ∷ os) =
    write_uint32 ((e' + 2 ^ 32 - e) % 2 ^ 32) >> write_int32 o >> write_ctts_entries (e' ∷ ends) os

unfoldable pub encode_ctts_sw : CttsBox → Action Writer (Unit {0})
encode_ctts_sw b = do
  encode_header_sw (codes "ctts") (ctts_size b)
  write_uint32 (version_and_flags b.version b.flags)
  write_uint32 (length b.sample_offset % 2 ^ 32)
  write_ctts_entries b.end_sample_nr b.sample_offset
  writer_error

unfoldable pub encode_ctts : CttsBox → Result Bytes
encode_ctts b = encode_with (ctts_size b) (encode_ctts_sw b)

unfoldable pub nr_sample_count : CttsBox → ℕ
nr_sample_count b = length b.sample_offset

-- The count of run `i`; an index out of range panics.
unfoldable pub sample_count_at : CttsBox → ℕ → Option ℕ
sample_count_at b i = elim (get_elem? b.end_sample_nr (i + 1)) [
  | none ↦ none
  | some e ↦ some ((e + 2 ^ 32 - get_or b.end_sample_nr i 0) % 2 ^ 32)
]

abbrev pub last_or : ℕ → List ℕ → ℕ
last_or d [] = d
last_or d (x ∷ xs) = last_or x xs

unfoldable pub add_sample_counts_and_offset : CttsBox → List ℕ → List ℤ → Result CttsBox
add_sample_counts_and_offset b counts offsets =
    let ends =
      if length b.end_sample_nr == 0 then b.end_sample_nr ++ (0 ∷ []) else b.end_sample_nr in
    if not (length counts == length offsets)
    then err counts_differ
    else ok (record b {
      sample_offset = b.sample_offset ++ offsets;
      end_sample_nr = ends ++ running_ends (last_or 0 ends) counts;
    })

-- The offset of the one-based sample `nr`; 0 and a number behind the last sample panic.
unfoldable pub get_composition_time_offset : CttsBox → ℕ → Option ℤ
get_composition_time_offset b nr =
    let i = search_index (λ h. ltb (get_or b.end_sample_nr h 0) nr) 0 (length b.end_sample_nr) in
    if nr == 0 then none else if i == 0 then none else get_elem? b.sample_offset (i - 1)
