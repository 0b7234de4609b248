-- ===== src/SampleTable/Ctts/RoundTrip.antt =====
-- A ctts box in a file: a count and a signed offset for each run.
use mp4ff.Base.{
  ℕ, ◌+◌, ◌-◌, ◌*◌, ◌%◌, ◌^◌, ◌<◌, ◌≡◌, refl, arith, some, List, [], ◌∷◌, ◌++◌, map, Bytes, codes,
  length, length-append, length-flat, length-map, ==_self, All, All-intro, All-map, flat,
}
use mp4ff.Base.Int.{ℤ, uint32, IsInt32}
use mp4ff.Base.Words.{be_bytes, length-be_bytes, IsUint8, IsUint24, IsUint32}
use mp4ff.Bits.Reads.{
  Reads, Reads-bind, Reads-end, Reads-finish, Reads-last, Reads-fail_if, Reads-uint32, Reads-int32,
  Reads-repeat,
}
use mp4ff.Bits.Writes.{Writes, Writes-pure, Writes-seq, Writes-last, Writes-uint32, Writes-int32}
use mp4ff.Box.{Registry, as_box, version_and_flags}
use mp4ff.Box.Frame.{Codec, codec, version_of_lem, flags_of_lem, version_and_flags-lt}
use mp4ff.SampleTable.Ctts.{
  CttsBox, expected_ctts_size, running_ends, read_ctts_entry, decode_ctts_sr, ctts_size,
  write_ctts_entries, encode_ctts_sw, encode_ctts,
}
use mp4ff.SampleTable.Ctts.Entries.{ctts_of}

abbrev pub entry_bytes : ℕ × ℤ → Bytes
entry_bytes e = be_bytes 4 e.0 ++ be_bytes 4 (uint32 e.1)

abbrev pub payload : ℕ → ℕ → List (ℕ × ℤ) → Bytes
payload version flags entries =
    be_bytes 4 (version_and_flags version flags)
    ++ (be_bytes 4 (length entries) ++ flat entry_bytes entries)

length-payload :
    (version flags : ℕ) (entries : List (ℕ × ℤ))
    → 8 + length (payload version flags entries) ≡ expected_ctts_size (length entries)
unfolding expected_ctts_size
length-payload version flags entries =
    simp
      (
        length-append,
        length-be_bytes,
        length-flat entry_bytes 8 entries (
            All-intro (λ e. length (entry_bytes e) ≡ 8) entries
              (λ e. simp (length-append, length-be_bytes))),
      )
      (omega arith)

abbrev pub IsEntry : ℕ × ℤ → Type 0
IsEntry e = IsUint32 e.0 × IsInt32 e.1

-- The counts come back as the differences of the running sums, even if these wrap around.
Writes-entries :
    (end_nr : ℕ) (entries : List (ℕ × ℤ))
    → IsUint32 end_nr
    → All IsEntry entries
    → Writes
        (write_ctts_entries
          (end_nr ∷ running_ends end_nr (map (λ e. e.0) entries))
          (map (λ e. e.1) entries))
        (flat entry_bytes entries)
unfolding write_ctts_entries running_ends
Writes-entries end_nr [] small a = Writes-pure
Writes-entries end_nr (e ∷ es) small a =
    let (h, _) = a.0 in
    let count : ((end_nr + e.0) % 2 ^ 32 + 2 ^ 32 - end_nr) % 2 ^ 32 ≡ e.0 = omega arith in
    rw count (
      Writes-seq (Writes-seq (Writes-uint32 e.0) (Writes-int32 e.1))
        (Writes-entries ((end_nr + e.0) % 2 ^ 32) es (omega arith) a.1))

Reads-entry : (e : ℕ × ℤ) → IsEntry e → Reads read_ctts_entry (entry_bytes e) e
unfolding read_ctts_entry
Reads-entry e h =
    Reads-bind _ (Reads-uint32 e.0 h.0) (Reads-last (λ d. (e.0, d)) (Reads-int32 e.1 h.1))

-- Every ctts box made of runs of a 32-bit count and a signed 32-bit offset, few enough for a 32-bit
-- size, is encoded run by run with no panic and a header of `Size()` bytes in all, and is decoded from
-- there to the same box, also if the sum of the counts wraps around.
pub ctts_round_trip {ℓ} :
    {B : Type ℓ} (reg : Registry B) (inj : CttsBox → B) (version flags : ℕ) (entries : List (ℕ × ℤ))
    → reg.decoders_sr (codes "ctts") ≡ some (as_box inj decode_ctts_sr)
    → IsUint8 version
    → IsUint24 flags
    → All IsEntry entries
    → 16 + length entries * 8 < 2 ^ 32
    → Codec reg inj
        (ctts_of version flags entries)
        (encode_ctts_sw (ctts_of version flags entries))
        (encode_ctts (ctts_of version flags entries))
        (ctts_size (ctts_of version flags entries))
        (codes "ctts")
        (payload version flags entries)
unfolding encode_ctts encode_ctts_sw decode_ctts_sr ctts_size
ctts_round_trip reg inj version flags entries known hv hf he small =
    let e : length (map (λ (e : ℕ × ℤ). e.1) entries) % 2 ^ 32 ≡ length entries =
      rw length-map (omega arith) in
    rw e (
      codec reg inj (codes "ctts") decode_ctts_sr (expected_ctts_size (length entries)) refl known
        (length-payload version flags entries) (unfold expected_ctts_size in omega arith)
        (Writes-seq (Writes-uint32 _)
          (Writes-seq (Writes-uint32 _) (Writes-last (Writes-entries 0 entries (omega arith) he))))
        (λ start_pos. Reads-bind _ (Reads-uint32 _ (version_and_flags-lt version flags)) (
          rw (version_of_lem version flags hv hf, flags_of_lem version flags hv hf)
            (Reads-bind _ (Reads-uint32 _ (omega arith)) (
              Reads-fail_if _ _ (rw ==_self) (
                Reads-end _
                  (Reads-repeat read_ctts_entry entry_bytes entries (
                    All-map IsEntry (λ e. Reads read_ctts_entry (entry_bytes e) e) entries
                      Reads-entry he))
                  (Reads-finish (ctts_of version flags entries))))))))
