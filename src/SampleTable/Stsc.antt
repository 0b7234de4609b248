-- ===== src/SampleTable/Stsc.antt =====
-- mp4/stsc.go: which chunks the samples are in. An entry holds from its first chunk to the next entry's.
pub mod Chunks
pub mod Descriptions
pub mod RoundTrip
pub mod Build
pub mod Order
pub mod Table
pub mod Count
pub mod Lookup
pub mod Interval
use mp4ff.Base.{
  ℕ, zero, suc, ◌+◌, ◌-◌, ◌*◌, ◌%◌, ◌^◌, Bool, true, false, not, Option, none, some, List, [], ◌∷◌,
  ◌++◌, Bytes, codes, length, get_elem?, replicate, ltb, ◌==◌, if◌then◌else◌,
}
use mp4ff.Base.Action.{
  Result, ok, err, Action, ◌>>=◌, ◌>>◌, pure, fail, fail_if, size_mismatch, bad_sdi, first_chunk,
  panic,
}
use mp4ff.Bits.Reader.{Reader, read_uint32}
use mp4ff.Bits.Writer.{Writer, write_uint32, writer_error, encode_with}
use mp4ff.Box.{BoxHeader, encode_header_sw, version_and_flags, version_of, flags_of}

pub record StscEntry : Type 0 where
  pub first_chunk_nr : ℕ
  pub samples_per_chunk : ℕ
  pub first_sample_nr : ℕ

pub record StscBox : Type 0 where
  pub version : ℕ
  pub flags : ℕ
  pub single_sample_description_id : ℕ
  pub entries : List StscEntry
  pub sample_description_id : List ℕ

unfoldable pub expected_stsc_size : ℕ → ℕ
expected_stsc_size nr_entries = 8 + 8 + nr_entries * 12

-- The first sample of an entry that starts at chunk `nr`, after an entry `e` with first sample `acc`.
abbrev pub first_sample_after : ℕ → StscEntry → ℕ → ℕ
first_sample_after acc e nr =
    (acc + (nr + 2 ^ 32 - e.first_chunk_nr) % 2 ^ 32 * e.samples_per_chunk) % 2 ^ 32

abbrev pub next_sample : ℕ → Option StscEntry → ℕ → ℕ
next_sample acc none nr = acc
next_sample acc (some e) nr = first_sample_after acc e nr

-- `b.SampleDescriptionID[i] = sdi`
abbrev pub set_at : List ℕ → ℕ → ℕ → List ℕ
set_at [] i v = []
set_at (x ∷ xs) zero v = v ∷ xs
set_at (x ∷ xs) (suc i) v = x ∷ set_at xs i v

-- How round `i` of `count` changes `b.singleSampleDescriptionID` and `b.SampleDescriptionID`.
unfoldable pub set_description : ℕ → ℕ → ℕ → ℕ × List ℕ → ℕ × List ℕ
set_description count i sdi (single, ids) =
    if i == 0
    then (sdi, ids)
    else if sdi == single
    then (single, ids)
    else if single == 0
    then (0, set_at ids i sdi)
    else (0, set_at (replicate i single ++ replicate (count - i) 0) i sdi)

-- The loop of the decoder: round `i` of `count`, with the entry before, if there is one.
unfoldable pub read_stsc_entries :
    ℕ → ℕ → ℕ → ℕ → Option StscEntry → ℕ × List ℕ → Action Reader (List StscEntry × (ℕ × List ℕ))
read_stsc_entries count zero i acc before ids = pure ([], ids)
read_stsc_entries count (suc n) i acc before ids =
    let next : ℕ → Option StscEntry → ℕ × List ℕ → Action Reader (List StscEntry × (ℕ × List ℕ)) =
      read_stsc_entries count n (i + 1) in
    (do
      first_chunk_nr ← read_uint32
      samples_per_chunk ← read_uint32
      let nr = next_sample acc before first_chunk_nr
      let e : StscEntry = record {
        first_chunk_nr = first_chunk_nr;
        samples_per_chunk = samples_per_chunk;
        first_sample_nr = nr;
      }
      sdi ← read_uint32
      fail_if (sdi == 0) bad_sdi
      rest ← next nr (some e) (set_description count i sdi ids)
      pure (e ∷ rest.0, rest.1))

unfoldable pub decode_stsc_sr : BoxHeader → ℕ → Action Reader StscBox
decode_stsc_sr hdr start_pos = do
  word ← read_uint32
  entry_count ← read_uint32
  fail_if (not (hdr.size == expected_stsc_size entry_count)) size_mismatch
  read ← read_stsc_entries entry_count entry_count 0 1 none (0, [])
  pure (record {
    version = version_of word;
    flags = flags_of word;
    single_sample_description_id = read.1.0;
    entries = read.0;
    sample_description_id = read.1.1;
  })

unfoldable pub stsc_size : StscBox → ℕ
stsc_size b = expected_stsc_size (length b.entries)

-- The loop over the entries, with the ids from the index `i` on.
unfoldable pub write_stsc_entries : ℕ → List StscEntry → List ℕ → Action Writer (Unit {0})
write_stsc_entries single [] ids = pure tt
write_stsc_entries single (e ∷ es) [] =
    write_uint32 e.first_chunk_nr
    >> write_uint32 e.samples_per_chunk
    >> (if single == 0 then fail panic else write_uint32 single)
    >> write_stsc_entries single es []
write_stsc_entries single (e ∷ es) (d ∷ ds) =
    write_uint32 e.first_chunk_nr
    >> write_uint32 e.samples_per_chunk
    >> write_uint32 (if single == 0 then d else single)
    >> write_stsc_entries single es ds

unfoldable pub encode_stsc_sw : StscBox → Action Writer (Unit {0})
encode_stsc_sw b = do
  encode_header_sw (codes "stsc") (stsc_size b)
  write_uint32 (version_and_flags b.version b.flags)
  write_uint32 (length b.entries % 2 ^ 32)
  write_stsc_entries b.single_sample_description_id b.entries b.sample_description_id
  writer_error

unfoldable pub encode_stsc : StscBox → Result Bytes
encode_stsc b = encode_with (stsc_size b) (encode_stsc_sw b)

abbrev pub last_entry : List StscEntry → Option StscEntry
last_entry [] = none
last_entry (e ∷ []) = some e
last_entry (e ∷ e' ∷ es) = last_entry (e' ∷ es)

-- The ids when another one is added behind `n` entries.
unfoldable pub add_description : ℕ → ℕ → ℕ × List ℕ → ℕ × List ℕ
add_description n sdi (single, ids) =
    if sdi == single
    then (single, ids)
    else if single == 0
    then (0, ids ++ (sdi ∷ []))
    else (0, replicate n single ++ (sdi ∷ []))

unfoldable pub add_entry : StscBox → ℕ → ℕ → ℕ → Result StscBox
add_entry b nr samples_per_chunk sdi = elim (last_entry b.entries) [
  | none ↦
      if not (nr == 1)
      then err first_chunk
      else ok (record b {
        entries =
            record {
              first_chunk_nr = nr;
              samples_per_chunk = samples_per_chunk;
              first_sample_nr = 1;
            }
            ∷ [];
        single_sample_description_id = sdi;
      })
  | some e ↦
      let ids =
        add_description (length b.entries) sdi
          (b.single_sample_description_id, b.sample_description_id) in
      ok (record b {
        entries =
            b.entries
            ++ (record {
              first_chunk_nr = nr;
              samples_per_chunk = samples_per_chunk;
              first_sample_nr = first_sample_after e.first_sample_nr e nr;
            }
                ∷ []);
        single_sample_description_id = ids.0;
        sample_description_id = ids.1;
      })
]

-- `SampleDescriptionID[chunkNr-1]`, which panics out of range.
unfoldable pub get_sample_description_id : StscBox → ℕ → Option ℕ
get_sample_description_id b zero =
    if not (b.single_sample_description_id == 0) then some b.single_sample_description_id else none
get_sample_description_id b (suc i) =
    if not (b.single_sample_description_id == 0)
    then some b.single_sample_description_id
    else get_elem? b.sample_description_id i

unfoldable pub set_single_sample_description_id : StscBox → ℕ → StscBox
set_single_sample_description_id b sdi = record b {
  single_sample_description_id = sdi;
  sample_description_id = [];
}
