-- ===== src/Fragment/Trun/Queries/Laws.antt =====
-- What the queries on a run of samples compute.
use mp4ff.Base.{
  ℕ, zero, suc, ◌+◌, ◌*◌, ◌/◌, ◌%◌, ◌^◌, ◌<◌, ◌≡◌, inl, inr, refl, ap, ◌∙◌, arith, Bool, true,
  false, ◌&&◌, Option, some, List, [], ◌∷◌, ◌++◌, length, take, drop, take_all, if◌then◌else◌,
  Bool-cases,
}
use mp4ff.Base.Int.{pos}
use mp4ff.Base.Words.{IsUint32, IsUint64}
use mp4ff.Base.Action.{ok}
use mp4ff.Fragment.Tfhd.{TfhdBox}
use mp4ff.Fragment.Trex.{TrexBox}
use mp4ff.Fragment.Trun.{
  Sample, TrunBox, has_first_sample_flags, has_sample_duration, has_sample_size, has_sample_flags,
  has_sample_composition_time_offset, sample_count,
}
use mp4ff.Fragment.Trun.RoundTrip.{stored, stored_sample, stored_samples}
use mp4ff.Fragment.Trun.Queries.{
  default_duration, default_size, default_flags, add_defaults, add_defaults_loop,
  add_sample_default_values, sum_dur, duration, find_time, get_sample_nr_for_relative_time,
}

-- The sample has the defaults wherever the flags store nothing for it.
pub record Agrees (flags first_flags dur size sample_flags : ℕ) (is_first : Bool) (s : Sample)
    : Type 0 where
  pub dur_default : has_sample_duration flags ≡ false → s.dur ≡ dur
  pub size_default : has_sample_size flags ≡ false → s.size ≡ size
  pub no_offset :
      has_sample_composition_time_offset flags ≡ false → s.composition_time_offset ≡ pos 0
  pub flags_default :
      has_sample_flags flags ≡ false
      → s.flags ≡ (if is_first && has_first_sample_flags flags then first_flags else sample_flags)

abbrev pub AllAgree : (flags first_flags dur size sample_flags : ℕ) → Bool → List Sample → Type 0
AllAgree flags first_flags dur size sample_flags is_first [] = Unit
AllAgree flags first_flags dur size sample_flags is_first (s ∷ ss) =
    Agrees flags first_flags dur size sample_flags is_first s
    × AllAgree flags first_flags dur size sample_flags false ss

module _ (flags first_flags : ℕ) where
  length-stored_samples :
      (is_first : Bool) (ss : List Sample)
      → length (stored_samples flags first_flags is_first ss) ≡ length ss
  length-stored_samples is_first [] = refl
  length-stored_samples is_first (s ∷ ss) = ap suc (length-stored_samples false ss)

  take-stored_samples :
      (n : ℕ) (is_first : Bool) (ss : List Sample)
      → take n (stored_samples flags first_flags is_first ss)
        ≡ stored_samples flags first_flags is_first (take n ss)
  take-stored_samples zero is_first ss = refl
  take-stored_samples (suc n) is_first [] = refl
  take-stored_samples (suc n) is_first (s ∷ ss) =
      ap (◌∷◌ (stored_sample flags first_flags is_first s)) (take-stored_samples n false ss)

module _ (flags first_flags dur size sample_flags : ℕ) where
  add_defaults-stored_sample :
      (is_first : Bool) (s : Sample)
      → Agrees flags first_flags dur size sample_flags is_first s
      → add_defaults flags dur size sample_flags is_first
          (stored_sample flags first_flags is_first s)
        ≡ s
  unfolding add_defaults
  add_defaults-stored_sample is_first s a = ground arith

  add_defaults_loop-stored :
      (is_first : Bool) (total : ℕ) (ss : List Sample)
      → AllAgree flags first_flags dur size sample_flags is_first ss
      → add_defaults_loop flags dur size sample_flags is_first total
          (stored_samples flags first_flags is_first ss)
        ≡ (ss, sum_dur total ss)
  unfolding add_defaults_loop sum_dur
  add_defaults_loop-stored is_first total [] a = refl
  add_defaults_loop-stored is_first total (s ∷ ss) a =
      rw (add_defaults-stored_sample is_first s a.0)
        (rw (add_defaults_loop-stored false ((total + s.dur) % 2 ^ 64) ss a.1))

  AllAgree-take :
      (n : ℕ) (is_first : Bool) (ss : List Sample)
      → AllAgree flags first_flags dur size sample_flags is_first ss
      → AllAgree flags first_flags dur size sample_flags is_first (take n ss)
  AllAgree-take zero is_first ss a = tt
  AllAgree-take (suc n) is_first [] a = tt
  AllAgree-take (suc n) is_first (s ∷ ss) a = (a.0, AllAgree-take n false ss a.1)

-- The defaults restore what a file leaves out: if every sample of a box has the defaults of tfhd and
-- trex (and the first one the first-sample flags) wherever the flags store nothing, then adding the
-- defaults to what a file keeps of the box gives its samples back, and the sum of their durations. This is
-- so of the samples that `SampleCount` counts in 32 bits, and any behind them stay as the file keeps them.
pub add_sample_default_values-stored :
    (t : TrunBox) (tfhd : TfhdBox) (trex : Option TrexBox)
    → AllAgree t.flags
        (if has_first_sample_flags t.flags then t.first_sample_flags else 0)
        (default_duration tfhd trex)
        (default_size tfhd trex)
        (default_flags tfhd trex)
        true
        t.samples
    → ((add_sample_default_values (stored t) tfhd trex).0.samples
        ≡ take (sample_count t) t.samples ++ drop (sample_count t) (stored t).samples)
      × ((add_sample_default_values (stored t) tfhd trex).1
          ≡ sum_dur 0 (take (sample_count t) t.samples))
unfolding add_sample_default_values
add_sample_default_values-stored t tfhd trex a =
    let first = if has_first_sample_flags t.flags then t.first_sample_flags else 0 in
    let e =
      add_defaults_loop-stored t.flags first (default_duration tfhd trex) (default_size tfhd trex)
        (default_flags tfhd trex) true 0 (take (sample_count t) t.samples)
        (AllAgree-take t.flags first (default_duration tfhd trex) (default_size tfhd trex)
          (default_flags tfhd trex) (sample_count t) true t.samples a) in
    let count = length-stored_samples t.flags first true t.samples in
    let counted = take-stored_samples t.flags first (sample_count t) true t.samples in
    rw (count, counted)
      (ap (λ p. p.0 ++ drop (sample_count t) (stored t).samples) e, ap (λ p. p.1) e)

module _ (flags dur size sample_flags : ℕ) where
  dur-add_defaults :
      (is_first : Bool) (s : Sample)
      → (add_defaults flags dur size sample_flags is_first s).dur
        ≡ (if has_sample_duration flags then s.dur else dur)
  unfolding add_defaults
  dur-add_defaults is_first s = ground arith

  total_of_defaults :
      (is_first : Bool) (total : ℕ) (ss : List Sample)
      → has_sample_duration flags ≡ false
      → (add_defaults_loop flags dur size sample_flags is_first total ss).1 % 2 ^ 64
        ≡ (total + dur * length ss) % 2 ^ 64
  unfolding add_defaults_loop
  total_of_defaults is_first total [] h = omega arith
  total_of_defaults is_first total (s ∷ ss) h =
      let e : (add_defaults flags dur size sample_flags is_first s).dur ≡ dur =
        dur-add_defaults is_first s ∙ rw h in
      rw e (omega (arith, total_of_defaults false ((total + dur) % 2 ^ 64) ss h))

  total_of_stored :
      (is_first : Bool) (total : ℕ) (ss : List Sample)
      → has_sample_duration flags ≡ true
      → (add_defaults_loop flags dur size sample_flags is_first total ss).1 ≡ sum_dur total ss
  unfolding add_defaults_loop sum_dur
  total_of_stored is_first total [] h = refl
  total_of_stored is_first total (s ∷ ss) h =
      let e : (add_defaults flags dur size sample_flags is_first s).dur ≡ s.dur =
        dur-add_defaults is_first s ∙ rw h in
      rw e (total_of_stored false ((total + s.dur) % 2 ^ 64) ss h)

  total-lt :
      (is_first : Bool) (total : ℕ) (ss : List Sample)
      → IsUint64 total
      → IsUint64 (add_defaults_loop flags dur size sample_flags is_first total ss).1
  unfolding add_defaults_loop
  total-lt is_first total [] h = h
  total-lt is_first total (s ∷ ss) h =
      total-lt false ((total + (add_defaults flags dur size sample_flags is_first s).dur) % 2 ^ 64)
        ss (omega arith)

-- The total that `AddSampleDefaultValues` returns is the duration that `Duration` computes from the
-- default of tfhd and trex, for a box of fewer than 2^32 samples.
pub add_sample_default_values-duration :
    (t : TrunBox) (tfhd : TfhdBox) (trex : Option TrexBox)
    → IsUint32 (length t.samples)
    → (add_sample_default_values t tfhd trex).1 ≡ duration t (default_duration tfhd trex)
unfolding add_sample_default_values duration
add_sample_default_values-duration t tfhd trex n =
    let dur = default_duration tfhd trex in
    let size = default_size tfhd trex in
    let flags = default_flags tfhd trex in
    let n' : sample_count t ≡ length t.samples = omega arith in
    let all = take_all (sample_count t) t.samples n' in
    elim (Bool-cases (has_sample_duration t.flags)) [
      | inl h ↦ rw (h, all) (total_of_stored t.flags dur size flags true 0 t.samples h)
      | inr h ↦
          let e : length t.samples % 2 ^ 32 ≡ length t.samples = omega arith in
          let total : (add_defaults_loop t.flags dur size flags true 0 t.samples).1
              ≡ dur * length t.samples % 2 ^ 64 =
            omega (
              arith,
              total_of_defaults t.flags dur size flags true 0 t.samples h,
              total-lt t.flags dur size flags true 0 t.samples (omega arith),
            ) in
          rw (h, all, e) total
    ]

-- When the sample after `k` samples starts.
abbrev pub start_time : ℕ → List Sample → ℕ
start_time zero ss = 0
start_time (suc k) [] = 0
start_time (suc k) (s ∷ ss) = s.dur + start_time k ss

abbrev pub start_of : TrunBox → ℕ → ℕ → ℕ
start_of t default_dur k =
    if has_sample_duration t.flags then start_time k t.samples else k * default_dur

find_time_first :
    (k delta acc nr : ℕ) (ss : List Sample)
    → k < length ss
    → acc + start_time k ss ≡ delta
    → ((j : ℕ) → j < k → acc + start_time j ss < delta)
    → IsUint64 delta
    → IsUint32 (nr + k)
    → find_time delta acc nr ss ≡ (nr + k, delta, true)
unfolding find_time
find_time_first k delta acc nr [] lt e first hd hn = absurd (omega arith)
find_time_first zero delta acc nr (s ∷ ss) lt e first hd hn = ground arith
find_time_first (suc k) delta acc nr (s ∷ ss) lt e first hd hn =
    let later : (j : ℕ) → j < k → (acc + s.dur) % 2 ^ 64 + start_time j ss < delta =
      λ j h. omega (arith, first (suc j) (omega arith)) in
    let rest =
      find_time_first k delta ((acc + s.dur) % 2 ^ 64) ((nr + 1) % 2 ^ 32) ss (omega arith)
        (omega arith) later hd (omega arith) in
    ground (arith, first 0 (omega arith), rest)

mul_div : (k d : ℕ) → 0 < d → k * d / d ≡ k
mul_div k d h = grind arith

-- The first sample that starts at a time is found, by its one-based number: if sample `k` (from 0)
-- starts at `delta` and every earlier sample starts before, then the result is `k + 1`. The box has
-- fewer than 2^32 samples, the time fits 64 bits, and without stored durations the default is not 0.
pub get_sample_nr_for_relative_time_complete :
    (t : TrunBox) (delta default_dur k : ℕ)
    → IsUint32 (length t.samples)
    → IsUint64 delta
    → (has_sample_duration t.flags ≡ false → 0 < default_dur)
    → k < length t.samples
    → start_of t default_dur k ≡ delta
    → ((j : ℕ) → j < k → start_of t default_dur j < delta)
    → get_sample_nr_for_relative_time t delta default_dur ≡ some (ok (k + 1))
unfolding get_sample_nr_for_relative_time
get_sample_nr_for_relative_time_complete t delta default_dur k n hd pd lt e first =
    elim (Bool-cases (has_sample_duration t.flags)) [
      | inl h ↦
          let found : find_time delta 0 0 t.samples ≡ (0 + k, delta, true) =
            find_time_first k delta 0 0 t.samples lt (omega (arith, rw h at e))
              (λ j l. omega (arith, rw h at (first j l))) hd (omega arith) in
          rw (h, found) (ground arith)
      | inr h ↦
          let e' : k * default_dur ≡ delta = rw h at e in
          rw (h, ← e', mul_div k default_dur (pd h)) (ground arith)
    ]
