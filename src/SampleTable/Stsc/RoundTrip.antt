-- ===== src/SampleTable/Stsc/RoundTrip.antt =====
-- An stsc box in a file, and one built entry by entry.
use mp4ff.Base.{
  ℕ, suc, ◌+◌, ◌-◌, ◌*◌, ◌%◌, ◌^◌, ◌<◌, ◌≡◌, refl, ap, inl, inr, arith, true, false, Option, none,
  some, List, [], ◌∷◌, ◌++◌, append-nil, append_assoc, map, Bytes, codes, length, length-append,
  length-flat, length-map, ==_self, All, All-intro, flat, ◌==◌, Bool-cases,
}
use mp4ff.Base.Words.{be_bytes, length-be_bytes, IsUint8, IsUint24, IsUint32}
use mp4ff.Bits.Reads.{Reads, Reads-pure, Reads-bind, Reads-last, Reads-fail_if, Reads-uint32}
use mp4ff.Bits.Writes.{Writes, Writes-pure, Writes-seq, Writes-last, Writes-uint32}
use mp4ff.Box.{Registry, as_box, version_and_flags}
use mp4ff.Box.Frame.{Codec, codec, version_of_lem, flags_of_lem, version_and_flags-lt}
use mp4ff.SampleTable.Stsc.{
  StscEntry, StscBox, expected_stsc_size, next_sample, read_stsc_entries, decode_stsc_sr, stsc_size,
  write_stsc_entries, encode_stsc_sw, encode_stsc,
}
use mp4ff.SampleTable.Stsc.Descriptions.{all_same, kept, set_description_lem}

-- What a file has of an entry: first chunk, samples per chunk, description id.
abbrev pub Row : Type 0
Row = ℕ × ℕ × ℕ

abbrev pub IsRow : Row → Type 0
IsRow r = IsUint32 r.0 × IsUint32 r.1 × IsUint32 r.2 × (0 < r.2)

abbrev pub row_bytes : Row → Bytes
row_bytes r = be_bytes 4 r.0 ++ (be_bytes 4 r.1 ++ be_bytes 4 r.2)

-- The entries with their first samples, behind a first sample and the entry before.
abbrev pub entries_from : ℕ → Option StscEntry → List Row → List StscEntry
entries_from acc before [] = []
entries_from acc before (r ∷ rs) =
    let nr = next_sample acc before r.0 in
    let e : StscEntry = record {
      first_chunk_nr = r.0;
      samples_per_chunk = r.1;
      first_sample_nr = nr;
    } in
    e ∷ entries_from nr (some e) rs

abbrev pub ids_of : List Row → List ℕ
ids_of rows = map (λ r. r.2) rows

-- The box with these rows.
abbrev pub stsc_of : ℕ → ℕ → List Row → StscBox
stsc_of version flags rows = record {
  version = version;
  flags = flags;
  single_sample_description_id = (kept (length rows) (ids_of rows)).0;
  entries = entries_from 1 none rows;
  sample_description_id = (kept (length rows) (ids_of rows)).1;
}

abbrev pub payload : ℕ → ℕ → List Row → Bytes
payload version flags rows =
    be_bytes 4 (version_and_flags version flags)
    ++ (be_bytes 4 (length rows) ++ flat row_bytes rows)

length-payload :
    (version flags : ℕ) (rows : List Row)
    → 8 + length (payload version flags rows) ≡ expected_stsc_size (length rows)
unfolding expected_stsc_size
length-payload version flags rows =
    simp
      (
        length-append,
        length-be_bytes,
        length-flat row_bytes 12 rows (
            All-intro (λ e. length (row_bytes e) ≡ 12) rows
              (λ e. simp (length-append, length-be_bytes))),
      )
      (omega arith)

pub length-entries_from :
    (rows : List Row) (acc : ℕ) (before : Option StscEntry)
    → length (entries_from acc before rows) ≡ length rows
length-entries_from [] acc before = refl
length-entries_from (r ∷ rs) acc before = ap suc (length-entries_from rs _ _)

All-end : (p : List ℕ) (x : ℕ) → All (λ d. 0 < d) p → 0 < x → All (λ d. 0 < d) (p ++ (x ∷ []))
All-end [] x a h = (h, tt)
All-end (y ∷ p) x a h = (a.0, All-end p x a.1 h)

-- One round of the decoder behind the rows with the ids `p`.
Reads-rows :
    (rows : List Row) (count acc : ℕ) (before : Option StscEntry) (p : List ℕ)
    → All (λ d. 0 < d) p
    → All IsRow rows
    → length p + length rows ≡ count
    → Reads
        (read_stsc_entries count (length rows) (length p) acc before (kept count p))
        (flat row_bytes rows)
        (entries_from acc before rows, kept count (p ++ ids_of rows))
unfolding read_stsc_entries
Reads-rows [] count acc before p a v e = rw append-nil (Reads-pure _)
Reads-rows (r ∷ rs) count acc before p a v e =
    let (h₀, h₁, h₂, set) = v.0 in
    let nr = next_sample acc before r.0 in
    let entry : StscEntry = record {
      first_chunk_nr = r.0;
      samples_per_chunk = r.1;
      first_sample_nr = nr;
    } in
    let p' = p ++ (r.2 ∷ []) in
    let n : length p' ≡ length p + 1 = length-append p (r.2 ∷ []) in
    let set_id : (r.2 == 0) ≡ false = ground arith in
    let now = set_description_lem count r.2 p a set (omega arith) in
    let rest = Reads-rows rs count nr (some entry) p' (All-end p r.2 a set) v.1 (omega arith) in
    let rest' = rw (n, append_assoc p (r.2 ∷ []) (ids_of rs)) at rest in
    rw (append_assoc (be_bytes 4 r.0), append_assoc (be_bytes 4 r.1))
      (Reads-bind _ (Reads-uint32 _ h₀) (
        Reads-bind _ (Reads-uint32 _ h₁) (
          Reads-bind _ (Reads-uint32 _ h₂)
            (Reads-fail_if _ _ set_id (rw now (Reads-last _ rest'))))))

-- With one id for all entries, and with a list of them.
Writes-single :
    (d : ℕ) (rows : List Row) (acc : ℕ) (before : Option StscEntry)
    → 0 < d
    → all_same d (ids_of rows) ≡ true
    → Writes (write_stsc_entries d (entries_from acc before rows) []) (flat row_bytes rows)
unfolding write_stsc_entries
Writes-single d [] acc before h same = Writes-pure
Writes-single d (r ∷ rs) acc before h same =
    let set : (d == 0) ≡ false = ground arith in
    let e : r.2 ≡ d = ground arith in
    rw (← append_assoc (be_bytes 4 r.0) (be_bytes 4 r.1) (be_bytes 4 r.2), e, set)
      (Writes-seq
        (Writes-seq (Writes-seq (Writes-uint32 r.0) (Writes-uint32 r.1)) (Writes-uint32 d))
        (Writes-single d rs _ _ h (ground arith)))

Writes-listed :
    (rows : List Row) (acc : ℕ) (before : Option StscEntry)
    → Writes
        (write_stsc_entries 0 (entries_from acc before rows) (ids_of rows))
        (flat row_bytes rows)
unfolding write_stsc_entries
Writes-listed [] acc before = Writes-pure
Writes-listed (r ∷ rs) acc before =
    rw (← append_assoc (be_bytes 4 r.0) (be_bytes 4 r.1) (be_bytes 4 r.2)) (
      Writes-seq
        (Writes-seq (Writes-seq (Writes-uint32 r.0) (Writes-uint32 r.1)) (Writes-uint32 r.2))
        (Writes-listed rs _ _))

-- Whichever way the ids are kept, each row has its own when it is written.
Writes-rows :
    (rows : List Row)
    → All IsRow rows
    → Writes
        (write_stsc_entries
          (kept (length rows) (ids_of rows)).0
          (entries_from 1 none rows)
          (kept (length rows) (ids_of rows)).1)
        (flat row_bytes rows)
Writes-rows [] v = Writes-listed [] 1 none
Writes-rows (r ∷ rs) v =
    let full : suc (length rs) - suc (length (ids_of rs)) ≡ 0 =
      omega (arith, length-map rs (λ (r : Row). r.2)) in
    elim (Bool-cases (all_same r.2 (ids_of rs))) [
      | inl same ↦ rw same (Writes-single r.2 (r ∷ rs) 1 none v.0.3 (ground arith))
      | inr differ ↦ rw (differ, full, append-nil) (Writes-listed (r ∷ rs) 1 none)
    ]

-- Every stsc box made of rows of 32-bit numbers with description ids other than 0, few enough for a
-- 32-bit size, is encoded row by row with no panic and a header of `Size()` bytes in all, and is
-- decoded from there to the same box: the first samples of the entries are computed again, and the
-- ids are kept once if they agree and as a list if not.
pub stsc_round_trip {ℓ} :
    {B : Type ℓ} (reg : Registry B) (inj : StscBox → B) (version flags : ℕ) (rows : List Row)
    → reg.decoders_sr (codes "stsc") ≡ some (as_box inj decode_stsc_sr)
    → IsUint8 version
    → IsUint24 flags
    → All IsRow rows
    → 16 + length rows * 12 < 2 ^ 32
    → Codec reg inj
        (stsc_of version flags rows)
        (encode_stsc_sw (stsc_of version flags rows))
        (encode_stsc (stsc_of version flags rows))
        (stsc_size (stsc_of version flags rows))
        (codes "stsc")
        (payload version flags rows)
unfolding encode_stsc encode_stsc_sw decode_stsc_sr stsc_size
stsc_round_trip reg inj version flags rows known hv hf v small =
    let n = length-entries_from rows 1 none in
    let n' : length rows % 2 ^ 32 ≡ length rows = omega arith in
    rw (n, n')
      (codec reg inj (codes "stsc") decode_stsc_sr (expected_stsc_size (length rows)) refl known
        (length-payload version flags rows) (unfold expected_stsc_size in omega arith)
        (Writes-seq (Writes-uint32 _)
          (Writes-seq (Writes-uint32 _) (Writes-last (Writes-rows rows v))))
        (λ start_pos. Reads-bind _ (Reads-uint32 _ (version_and_flags-lt version flags)) (
          rw (version_of_lem version flags hv hf, flags_of_lem version flags hv hf)
            (Reads-bind _ (Reads-uint32 _ (omega arith)) (
              Reads-fail_if _ _ (rw ==_self)
                (Reads-last _ (Reads-rows rows (length rows) 1 none [] tt v (omega arith))))))))
