-- ===== src/SampleTable/Stts/RoundTrip.antt =====
-- An stts box in a file: its count of entries, and a count and a duration for each.
use mp4ff.Base.{
  ℕ, ◌+◌, ◌*◌, ◌%◌, ◌^◌, ◌<◌, ◌≡◌, refl, some, Bytes, List, [], ◌∷◌, codes, ◌++◌, length,
  length-append, length-flat, length-map, arith, ==_self, All, All-intro, All-map, flat, map,
}
use mp4ff.Base.Words.{be_bytes, length-be_bytes, IsUint8, IsUint24, IsUint32}
use mp4ff.Bits.Reads.{Reads, Reads-bind, Reads-last, Reads-fail_if, Reads-uint32, Reads-repeat}
use mp4ff.Bits.Writes.{Writes, Writes-seq, Writes-last, Writes-uint32, Writes-pure}
use mp4ff.Box.{Registry, as_box, version_and_flags}
use mp4ff.Box.Frame.{Codec, codec, version_of_lem, flags_of_lem, version_and_flags-lt}
use mp4ff.SampleTable.Stts.{
  SttsBox, expected_stts_size, read_stts_entry, decode_stts_sr, stts_size, write_stts_entries,
  encode_stts_sw, encode_stts,
}

abbrev pub entry_bytes : ℕ × ℕ → Bytes
entry_bytes e = be_bytes 4 e.0 ++ be_bytes 4 e.1

-- The box with the entries of a list.
abbrev pub stts_of : ℕ → ℕ → List (ℕ × ℕ) → SttsBox
stts_of version flags entries = record {
  version = version;
  flags = flags;
  sample_count = map (λ e. e.0) entries;
  sample_time_delta = map (λ e. e.1) entries;
}

abbrev pub payload : ℕ → ℕ → List (ℕ × ℕ) → Bytes
payload version flags entries =
    be_bytes 4 (version_and_flags version flags)
    ++ (be_bytes 4 (length entries) ++ flat entry_bytes entries)

length-payload :
    (version flags : ℕ) (entries : List (ℕ × ℕ))
    → 8 + length (payload version flags entries) ≡ expected_stts_size (length entries)
unfolding expected_stts_size
length-payload version flags entries =
    simp
      (
        length-append,
        length-be_bytes,
        length-flat entry_bytes 8 entries (
            All-intro (λ e. length (entry_bytes e) ≡ 8) entries
              (λ e. simp (length-append, length-be_bytes))),
      )
      (omega arith)

Writes-entries :
    (entries : List (ℕ × ℕ))
    → Writes
        (write_stts_entries (map (λ e. e.0) entries) (map (λ e. e.1) entries))
        (flat entry_bytes entries)
unfolding write_stts_entries
Writes-entries [] = Writes-pure
Writes-entries (e ∷ es) =
    Writes-seq (Writes-seq (Writes-uint32 e.0) (Writes-uint32 e.1)) (Writes-entries es)

abbrev pub IsEntry : ℕ × ℕ → Type 0
IsEntry e = IsUint32 e.0 × IsUint32 e.1

Reads-entry : (e : ℕ × ℕ) → IsEntry e → Reads read_stts_entry (entry_bytes e) e
unfolding read_stts_entry
Reads-entry e h =
    Reads-bind _ (Reads-uint32 e.0 h.0) (Reads-last (λ d. (e.0, d)) (Reads-uint32 e.1 h.1))

-- Every stts box of 32-bit counts and durations in equal number, small enough for a 32-bit size, is
-- encoded entry by entry with no panic and a header of `Size()` bytes in all, and is decoded from
-- there to the same box.
pub stts_round_trip {ℓ} :
    {B : Type ℓ} (reg : Registry B) (inj : SttsBox → B) (version flags : ℕ) (entries : List (ℕ × ℕ))
    → reg.decoders_sr (codes "stts") ≡ some (as_box inj decode_stts_sr)
    → IsUint8 version
    → IsUint24 flags
    → All IsEntry entries
    → 16 + length entries * 8 < 2 ^ 32
    → Codec reg inj
        (stts_of version flags entries)
        (encode_stts_sw (stts_of version flags entries))
        (encode_stts (stts_of version flags entries))
        (stts_size (stts_of version flags entries))
        (codes "stts")
        (payload version flags entries)
unfolding encode_stts encode_stts_sw decode_stts_sr stts_size
stts_round_trip reg inj version flags entries known hv hf he small =
    let e : length (map (λ (e : ℕ × ℕ). e.0) entries) % 2 ^ 32 ≡ length entries =
      rw length-map (omega arith) in
    rw e (
      codec reg inj (codes "stts") decode_stts_sr (expected_stts_size (length entries)) refl known
        (length-payload version flags entries) (unfold expected_stts_size in omega arith)
        (Writes-seq (Writes-uint32 _)
          (Writes-seq (Writes-uint32 _) (Writes-last (Writes-entries entries))))
        (λ start_pos. Reads-bind _ (Reads-uint32 _ (version_and_flags-lt version flags)) (
          rw (version_of_lem version flags hv hf, flags_of_lem version flags hv hf)
            (Reads-bind _ (Reads-uint32 _ (omega arith)) (
              Reads-fail_if _ _ (rw ==_self) (
                Reads-last _ (
                  Reads-repeat read_stts_entry entry_bytes entries (
                    All-map IsEntry (λ e. Reads read_stts_entry (entry_bytes e) e) entries
                      Reads-entry he))))))))
