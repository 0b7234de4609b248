-- ===== src/SampleTable/Elst/RoundTrip.antt =====
-- An elst box in a file: its entries take 20 bytes each under version 1, and 12 under version 0.
use mp4ff.Base.{
  ℕ, ◌+◌, ◌*◌, ◌%◌, ◌^◌, ◌<◌, ◌≤◌, ◌≡◌, refl, true, false, Bool, arith, some, List, ◌++◌, Bytes,
  codes, length, length-append, length-flat, ==_self, ◌==◌, if◌then◌else◌, All, All-intro, All-map,
  flat,
}
use mp4ff.Base.Int.{uint16, uint32, uint64, IsInt16, IsInt32, IsInt64}
use mp4ff.Base.Words.{be_bytes, length-be_bytes, IsUint24, IsUint32, IsUint64}
use mp4ff.Bits.Reads.{
  Reads, Reads-bind, Reads-end, Reads-finish, Reads-last, Reads-fail_if, Reads-if, Reads-uint32,
  Reads-uint64, Reads-int16, Reads-int32, Reads-int64, Reads-repeat,
}
use mp4ff.Bits.Writes.{
  Writes, Writes-seq, Writes-last, Writes-if, Writes-uint32, Writes-uint64, Writes-int16,
  Writes-int32, Writes-int64, Writes-for_each,
}
use mp4ff.Box.{Registry, as_box, version_and_flags}
use mp4ff.Box.Frame.{Codec, codec, version_of_lem, flags_of_lem, version_and_flags-lt}
use mp4ff.SampleTable.Elst.{
  ElstEntry, ElstBox, expected_elst_size, read_long_entry, read_short_entry, decode_elst_sr,
  elst_size, write_long_entry, write_short_entry, encode_elst_sw, encode_elst,
}

pub record IsLong (e : ElstEntry) : Type 0 where
  pub duration : IsUint64 e.segment_duration
  pub time : IsInt64 e.media_time
  pub whole : IsInt16 e.media_rate_integer
  pub fraction : IsInt16 e.media_rate_fraction

pub record IsShort (e : ElstEntry) : Type 0 where
  pub duration : IsUint32 e.segment_duration
  pub time : IsInt32 e.media_time
  pub whole : IsInt16 e.media_rate_integer
  pub fraction : IsInt16 e.media_rate_fraction

-- The version is 0 or 1, and the times fit the width that it stands for.
pub record IsValid (b : ElstBox) : Type 0 where
  pub version : b.version ≤ 1
  pub flags : IsUint24 b.flags
  pub long : b.version ≡ 1 → All IsLong b.entries
  pub short : b.version ≡ 0 → All IsShort b.entries
  pub fits : 16 + length b.entries * 20 < 2 ^ 32

abbrev rate_bytes : ElstEntry → Bytes
rate_bytes e = be_bytes 2 (uint16 e.media_rate_integer) ++ be_bytes 2 (uint16 e.media_rate_fraction)

abbrev long_bytes : ElstEntry → Bytes
long_bytes e = be_bytes 8 e.segment_duration ++ (be_bytes 8 (uint64 e.media_time) ++ rate_bytes e)

abbrev short_bytes : ElstEntry → Bytes
short_bytes e = be_bytes 4 e.segment_duration ++ (be_bytes 4 (uint32 e.media_time) ++ rate_bytes e)

abbrev pub payload : ElstBox → Bytes
payload b =
    be_bytes 4 (version_and_flags b.version b.flags)
    ++ (be_bytes 4 (length b.entries)
        ++ (if b.version == 1 then flat long_bytes b.entries else flat short_bytes b.entries))

length-if :
    (c : Bool) (bs cs : Bytes) {m n : ℕ}
    → 16 + length bs ≡ m
    → 16 + length cs ≡ n
    → 8 + (4 + (4 + length (if c then bs else cs))) ≡ (if c then m else n)
length-if true bs cs h h' = omega arith
length-if false bs cs h h' = omega arith

length-long : (es : List ElstEntry) → length (flat long_bytes es) ≡ length es * 20
length-long es =
    length-flat long_bytes 20 es
      (All-intro (λ e. length (long_bytes e) ≡ 20) es (λ e. simp (length-append, length-be_bytes)))

length-short : (es : List ElstEntry) → length (flat short_bytes es) ≡ length es * 12
length-short es =
    length-flat short_bytes 12 es
      (All-intro (λ e. length (short_bytes e) ≡ 12) es (λ e. simp (length-append, length-be_bytes)))

length-payload :
    (b : ElstBox) → 8 + length (payload b) ≡ expected_elst_size b.version (length b.entries)
unfolding expected_elst_size
length-payload b =
    simp (length-append, length-be_bytes)
      (length-if (b.version == 1) _ _ (omega (arith, length-long b.entries))
        (omega (arith, length-short b.entries)))

size_fits : (b : ElstBox) → IsValid b → expected_elst_size b.version (length b.entries) < 2 ^ 32
unfolding expected_elst_size
size_fits b v = ground (arith, v.fits)

Writes-long : (e : ElstEntry) → Writes (write_long_entry e) (long_bytes e)
unfolding write_long_entry
Writes-long e =
    Writes-seq (Writes-uint64 _)
      (Writes-seq (Writes-int64 _) (Writes-seq (Writes-int16 _) (Writes-int16 _)))

Writes-short : (e : ElstEntry) → IsShort e → Writes (write_short_entry e) (short_bytes e)
unfolding write_short_entry
Writes-short e h =
    let small : e.segment_duration % 2 ^ 32 ≡ e.segment_duration = omega (arith, h.duration) in
    rw small (
      Writes-seq (Writes-uint32 _)
        (Writes-seq (Writes-int32 _) (Writes-seq (Writes-int16 _) (Writes-int16 _))))

Reads-long : (e : ElstEntry) → IsLong e → Reads read_long_entry (long_bytes e) e
unfolding read_long_entry
Reads-long e h = Reads-bind _ (Reads-uint64 _ h.duration) (
    Reads-bind _ (Reads-int64 _ h.time) (
      Reads-bind _ (Reads-int16 _ h.whole)
        (Reads-last (λ f. record e { media_rate_fraction = f }) (Reads-int16 _ h.fraction))))

Reads-short : (e : ElstEntry) → IsShort e → Reads read_short_entry (short_bytes e) e
unfolding read_short_entry
Reads-short e h = Reads-bind _ (Reads-uint32 _ h.duration) (
    Reads-bind _ (Reads-int32 _ h.time) (
      Reads-bind _ (Reads-int16 _ h.whole)
        (Reads-last (λ f. record e { media_rate_fraction = f }) (Reads-int16 _ h.fraction))))

-- Every elst box of version 0 or 1 whose times fit the version, small enough for a 32-bit size, is
-- encoded entry by entry with a header of `Size()` bytes in all, and is decoded from there to the same
-- box.
pub elst_round_trip {ℓ} :
    {B : Type ℓ} (reg : Registry B) (inj : ElstBox → B) (b : ElstBox)
    → reg.decoders_sr (codes "elst") ≡ some (as_box inj decode_elst_sr)
    → IsValid b
    → Codec reg inj b (encode_elst_sw b) (encode_elst b) (elst_size b) (codes "elst") (payload b)
unfolding encode_elst encode_elst_sw decode_elst_sr elst_size
elst_round_trip reg inj b known v =
    let es = b.entries in
    let e : length es % 2 ^ 32 ≡ length es = omega (arith, v.fits) in
    let byte : b.version < 2 ^ 8 = omega (arith, v.version) in
    let is_long : (b.version == 1) ≡ true → All IsLong es = λ h. v.long (ground arith) in
    let is_short : (b.version == 1) ≡ false → All IsShort es =
      λ h. v.short (ground (arith, v.version)) in
    let is_zero : (b.version == 1) ≡ false → (b.version == 0) ≡ true =
      λ h. ground (arith, v.version) in
    rw e (
      codec reg inj (codes "elst") decode_elst_sr (expected_elst_size b.version (length es)) refl
        known (length-payload b) (size_fits b v)
        (Writes-seq (Writes-uint32 _) (
          Writes-seq (Writes-uint32 _) (
            Writes-last (
              Writes-if (b.version == 1)
                (λ h.
                  Writes-for_each write_long_entry long_bytes es
                    (All-intro (λ x. Writes (write_long_entry x) (long_bytes x)) es Writes-long))
                (λ h. Writes-for_each write_short_entry short_bytes es (
                  All-map IsShort (λ x. Writes (write_short_entry x) (short_bytes x)) es
                    Writes-short (is_short h)))))))
        (λ start_pos. Reads-bind _ (Reads-uint32 _ (version_and_flags-lt b.version b.flags)) (
          rw
            (
              version_of_lem b.version b.flags byte v.flags,
              flags_of_lem b.version b.flags byte v.flags,
            )
            (Reads-bind _ (Reads-uint32 _ (omega (arith, v.fits))) (
              Reads-fail_if _ _ (rw ==_self) (
                Reads-end _
                  (Reads-if (b.version == 1)
                    (λ h. Reads-repeat read_long_entry long_bytes es (
                      All-map IsLong (λ x. Reads read_long_entry (long_bytes x) x) es Reads-long
                        (is_long h)))
                    (λ h. rw (is_zero h) (
                      Reads-repeat read_short_entry short_bytes es (
                        All-map IsShort (λ x. Reads read_short_entry (short_bytes x) x) es
                          Reads-short (is_short h)))))
                  (Reads-finish b)))))))
