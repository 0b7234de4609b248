-- ===== src/Fragment/Trun/RoundTrip.antt =====
-- A trun box in a file: the offsets, and for each sample the fields that the flags name.
use mp4ff.Base.{
  ℕ, ◌+◌, ◌≡◌, refl, some, Bytes, List, [], ◌∷◌, codes, ◌++◌, length, take, take_all, length-append,
  length-if, length-flat, arith, Bool, true, false, ◌&&◌, ltb, ==_self, if◌then◌else◌, All,
  All-intro, flat,
}
use mp4ff.Base.Int.{pos, uint32, IsInt32}
use mp4ff.Base.Words.{be_bytes, length-be_bytes, IsUint8, IsUint24, IsUint32}
use mp4ff.Bits.Reads.{
  Reads, Reads-bind, Reads-end, Reads-last, Reads-pure, Reads-finish, Reads-fail_if, Reads-uint32,
  Reads-int32, Reads-flag,
}
use mp4ff.Bits.Writes.{
  Writes, Writes-seq, Writes-last, Writes-uint32, Writes-int32, Writes-when, Writes-fail_if,
  Writes-for_each, Writes-when_given,
}
use mp4ff.Box.{Registry, as_box, version_and_flags}
use mp4ff.Box.Frame.{Codec, codec, version_of_lem, flags_of_lem, version_and_flags-lt}
use mp4ff.Fragment.Trun.{
  Sample, TrunBox, has_data_offset, has_first_sample_flags, has_sample_duration, has_sample_size,
  has_sample_flags, has_sample_composition_time_offset, sample_count, bytes_per_sample,
  has_no_sample_data, is_zero, expected_trun_size, trun_size, implied_flags, read_sample,
  read_samples, decode_trun_sr, write_sample, encode_trun_sw, encode_trun,
}

pub record IsValidSample (s : Sample) : Type 0 where
  pub flags : IsUint32 s.flags
  pub dur : IsUint32 s.dur
  pub size : IsUint32 s.size
  pub offset : IsInt32 s.composition_time_offset

-- `many`: a decoder refuses more than 1024 samples that store nothing.
pub record IsValid (t : TrunBox) : Type 0 where
  pub version : IsUint8 t.version
  pub flags : IsUint24 t.flags
  pub data_offset : IsInt32 t.data_offset
  pub offset_set : has_data_offset t.flags ≡ true → is_zero t.data_offset ≡ false
  pub first_sample_flags : IsUint32 t.first_sample_flags
  pub samples : All IsValidSample t.samples
  pub count : IsUint32 (length t.samples)
  pub many : (ltb 1024 (length t.samples) && has_no_sample_data t.flags) ≡ false
  pub fits : IsUint32 (expected_trun_size t.flags (length t.samples))

module _ (flags first_flags : ℕ) where
  -- What a file keeps of a sample: a field that no flag names is 0 when it is read back, but for the
  -- flags of the first sample.
  abbrev pub stored_sample : Bool → Sample → Sample
  stored_sample is_first s = record {
    flags = if has_sample_flags flags then s.flags else implied_flags flags first_flags is_first;
    dur = if has_sample_duration flags then s.dur else 0;
    size = if has_sample_size flags then s.size else 0;
    composition_time_offset =
        if has_sample_composition_time_offset flags then s.composition_time_offset else pos 0;
  }

  abbrev pub stored_samples : Bool → List Sample → List Sample
  stored_samples is_first [] = []
  stored_samples is_first (s ∷ ss) = stored_sample is_first s ∷ stored_samples false ss

-- What a file keeps of a box. `writeOrderNr` is never stored.
abbrev pub stored : TrunBox → TrunBox
stored t =
    let first_flags = if has_first_sample_flags t.flags then t.first_sample_flags else 0 in
    record t {
      data_offset = if has_data_offset t.flags then t.data_offset else pos 0;
      first_sample_flags = first_flags;
      samples = stored_samples t.flags first_flags true t.samples;
      write_order_nr = 0;
    }

abbrev pub sample_bytes : ℕ → Sample → Bytes
sample_bytes flags s =
    (if has_sample_duration flags then be_bytes 4 s.dur else [])
    ++ ((if has_sample_size flags then be_bytes 4 s.size else [])
        ++ ((if has_sample_flags flags then be_bytes 4 s.flags else [])
            ++ (if has_sample_composition_time_offset flags
                then be_bytes 4 (uint32 s.composition_time_offset)
                else [])))

abbrev pub payload : TrunBox → Bytes
payload t =
    be_bytes 4 (version_and_flags t.version t.flags)
    ++ (be_bytes 4 (length t.samples)
        ++ ((if has_data_offset t.flags then be_bytes 4 (uint32 t.data_offset) else [])
            ++ ((if has_first_sample_flags t.flags then be_bytes 4 t.first_sample_flags else [])
                ++ flat (sample_bytes t.flags) t.samples)))

length-sample_bytes :
    (flags : ℕ) (s : Sample) → length (sample_bytes flags s) ≡ bytes_per_sample flags
unfolding bytes_per_sample
length-sample_bytes flags s = simp (length-append, length-if, length-be_bytes) (omega arith)

length-payload :
    (t : TrunBox) → 8 + length (payload t) ≡ expected_trun_size t.flags (length t.samples)
unfolding expected_trun_size
length-payload t =
    simp
      (
        length-append,
        length-if,
        length-be_bytes,
        length-flat (sample_bytes t.flags) (bytes_per_sample t.flags) t.samples (
            All-intro (λ s. length (sample_bytes t.flags s) ≡ bytes_per_sample t.flags) t.samples
              (length-sample_bytes t.flags)),
      )
      (omega arith)

module _ (flags first_flags : ℕ) where
  Reads-sample :
      (is_first : Bool) (s : Sample)
      → IsValidSample s
      → Reads
          (read_sample flags first_flags is_first)
          (sample_bytes flags s)
          (stored_sample flags first_flags is_first s)
  unfolding read_sample
  Reads-sample is_first s v =
      Reads-bind _ (Reads-flag (has_sample_duration flags) 0 (Reads-uint32 _ v.dur)) (
        Reads-bind _ (Reads-flag (has_sample_size flags) 0 (Reads-uint32 _ v.size)) (
          Reads-bind _
            (Reads-flag (has_sample_flags flags) (implied_flags flags first_flags is_first)
              (Reads-uint32 _ v.flags))
            (Reads-end _
              (Reads-flag (has_sample_composition_time_offset flags) (pos 0)
                (Reads-int32 _ v.offset))
              (Reads-pure (stored_sample flags first_flags is_first s)))))

  Reads-samples :
      (is_first : Bool) (ss : List Sample)
      → All IsValidSample ss
      → Reads
          (read_samples flags first_flags is_first (length ss))
          (flat (sample_bytes flags) ss)
          (stored_samples flags first_flags is_first ss)
  unfolding read_samples
  Reads-samples is_first [] v = Reads-pure []
  Reads-samples is_first (s ∷ ss) v = Reads-bind _ (Reads-sample is_first s v.0) (
      Reads-last (λ rest. stored_sample flags first_flags is_first s ∷ rest)
        (Reads-samples false ss v.1))

Writes-sample : (flags : ℕ) (s : Sample) → Writes (write_sample flags s) (sample_bytes flags s)
unfolding write_sample
Writes-sample flags s = Writes-seq (Writes-when (has_sample_duration flags) (Writes-uint32 _)) (
    Writes-seq (Writes-when (has_sample_size flags) (Writes-uint32 _)) (
      Writes-seq (Writes-when (has_sample_flags flags) (Writes-uint32 _))
        (Writes-when (has_sample_composition_time_offset flags) (Writes-int32 _))))

module _ (t : TrunBox) (v : IsValid t) where
  sample_count_lem : sample_count t ≡ length t.samples
  sample_count_lem = omega (arith, v.count)

  counted_samples : take (sample_count t) t.samples ≡ t.samples
  counted_samples = take_all (sample_count t) t.samples sample_count_lem

  trun_size_lem : trun_size t ≡ expected_trun_size t.flags (length t.samples)
  unfolding trun_size
  trun_size_lem = rw sample_count_lem

-- Every trun box whose fields fit their widths, whose data offset is set if its flag is, and that
-- does not hold more than 1024 samples with nothing stored for them, is encoded with no panic and
-- with a header of `Size()` bytes in all. It is decoded from there to what its flags keep: a first
-- sample with no flags of its own has the first-sample flags, and other missing fields are 0.
pub trun_round_trip {ℓ} :
    {B : Type ℓ} (reg : Registry B) (inj : TrunBox → B) (t : TrunBox)
    → reg.decoders_sr (codes "trun") ≡ some (as_box inj decode_trun_sr)
    → IsValid t
    → Codec reg inj
        (stored t)
        (encode_trun_sw t)
        (encode_trun t)
        (trun_size t)
        (codes "trun")
        (payload t)
unfolding encode_trun encode_trun_sw decode_trun_sr
trun_round_trip reg inj t known v =
    let first = if has_first_sample_flags t.flags then t.first_sample_flags else 0 in
    rw (trun_size_lem t v, counted_samples t v, sample_count_lem t v)
      (codec reg inj (codes "trun") decode_trun_sr (expected_trun_size t.flags (length t.samples))
        refl known (length-payload t) v.fits
        (Writes-seq (Writes-uint32 _) (
          Writes-seq (Writes-uint32 _) (
            Writes-seq
              (Writes-when_given (has_data_offset t.flags)
                (λ h. Writes-fail_if _ _ (v.offset_set h) (Writes-int32 _)))
              (Writes-seq (Writes-when (has_first_sample_flags t.flags) (Writes-uint32 _)) (
                Writes-last (
                  Writes-for_each (write_sample t.flags) (sample_bytes t.flags) t.samples (
                    All-intro (λ s. Writes (write_sample t.flags s) (sample_bytes t.flags s))
                      t.samples (Writes-sample t.flags))))))))
        (λ start_pos. Reads-bind _ (Reads-uint32 _ (version_and_flags-lt t.version t.flags)) (
          rw
            (
              version_of_lem t.version t.flags v.version v.flags,
              flags_of_lem t.version t.flags v.version v.flags,
            )
            (Reads-bind _ (Reads-uint32 _ v.count) (
              Reads-fail_if _ _ (rw ==_self) (
                Reads-fail_if _ _ v.many (
                  Reads-bind _
                    (Reads-flag (has_data_offset t.flags) (pos 0) (Reads-int32 _ v.data_offset))
                    (Reads-bind _
                      (Reads-flag (has_first_sample_flags t.flags) 0
                        (Reads-uint32 _ v.first_sample_flags))
                      (Reads-end _ (Reads-samples t.flags first true t.samples v.samples)
                        (Reads-finish (stored t)))))))))))
