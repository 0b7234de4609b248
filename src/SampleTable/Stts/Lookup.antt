-- ===== src/SampleTable/Stts/Lookup.antt =====
-- The lookups of mp4/stts.go against the list of sample durations that the table stands for.
use mp4ff.Base.{
  ℕ, zero, suc, ◌+◌, ◌-◌, ◌*◌, ◌%◌, ◌^◌, ◌<◌, ◌≤◌, ◌≡◌, inl, inr, refl, sym, ap, ◌∙◌, arith, true,
  some, List, [], ◌∷◌, ◌++◌, length, length-append, length-replicate, replicate, get_elem?, ltb,
  leb, if◌then◌else◌, Bool-cases,
}
use mp4ff.Base.Words.{IsUint64}
use mp4ff.SampleTable.Stts.{SttsBox, decode_time_loop, get_decode_time, dur_loop, get_dur}

-- The durations of all samples, one by one.
unfoldable pub durations : List ℕ → List ℕ → List ℕ
durations [] ds = []
durations (c ∷ cs) [] = []
durations (c ∷ cs) (d ∷ ds) = replicate c d ++ durations cs ds

-- The sum of the first `k`.
unfoldable pub start_time : ℕ → List ℕ → ℕ
start_time zero ds = 0
start_time (suc k) [] = 0
start_time (suc k) (d ∷ ds) = d + start_time k ds

pub start_time-run : (c d k : ℕ) (ds : List ℕ) → k ≤ c → start_time k (replicate c d ++ ds) ≡ k * d
unfolding start_time
start_time-run c d zero ds h = omega arith
start_time-run zero d (suc k) ds h = absurd (omega arith)
start_time-run (suc c) d (suc k) ds h = omega (arith, start_time-run c d k ds (omega arith))

pub start_time-past :
    (c d k j : ℕ) (ds : List ℕ)
    → k ≡ c + j
    → start_time k (replicate c d ++ ds) ≡ c * d + start_time j ds
unfolding start_time
start_time-past zero d k j ds h = let e : k ≡ j = omega arith in rw e (omega arith)
start_time-past (suc c) d zero j ds h = absurd (omega arith)
start_time-past (suc c) d (suc k) j ds h = omega (arith, start_time-past c d k j ds (omega arith))

get_elem?-run : (c d k : ℕ) (ds : List ℕ) → k < c → get_elem? (replicate c d ++ ds) k ≡ some d
get_elem?-run zero d k ds h = absurd (omega arith)
get_elem?-run (suc c) d zero ds h = refl
get_elem?-run (suc c) d (suc k) ds h = get_elem?-run c d k ds (omega arith)

get_elem?-past :
    (c d k j : ℕ) (ds : List ℕ) → k ≡ c + j → get_elem? (replicate c d ++ ds) k ≡ get_elem? ds j
get_elem?-past zero d k j ds h = let e : k ≡ j = omega arith in rw e
get_elem?-past (suc c) d zero j ds h = absurd (omega arith)
get_elem?-past (suc c) d (suc k) j ds h = get_elem?-past c d k j ds (omega arith)

-- How many samples there are, in a first run and in all.
pub length-run :
    (c d : ℕ) (cs ds : List ℕ) → length (durations (c ∷ cs) (d ∷ ds)) ≡ c + length (durations cs ds)
unfolding durations
length-run c d cs ds =
    omega (arith, length-append (replicate c d) (durations cs ds), length-replicate c d)

last_run :
    (k x time : ℕ)
    → IsUint64 (time + k * x)
    → (if ltb 0 k then (time + k * x % 2 ^ 64) % 2 ^ 64 else time) ≡ time + k * x
last_run zero x time h = omega arith
last_run (suc k) x time h = rw (let t : ltb 0 (suc k) ≡ true = ground arith in t) (omega arith)

-- The sample is there: `k` is below the number of samples.
decode_time_loop_lem :
    (k time : ℕ) (cs ds : List ℕ) {d : ℕ}
    → get_elem? (durations cs ds) k ≡ some d
    → IsUint64 (time + start_time k (durations cs ds))
    → decode_time_loop k time cs ds ≡ some (time + start_time k (durations cs ds), d)
unfolding decode_time_loop durations
decode_time_loop_lem k time [] ds g h = cc
decode_time_loop_lem k time (c ∷ cs) [] g h = cc
decode_time_loop_lem k time (c ∷ cs) (x ∷ ds) {d} g h = elim (Bool-cases (leb c k)) [
  | inl past ↦
      let e : k ≡ c + (k - c) = ground arith in
      let st = start_time-past c x k (k - c) (durations cs ds) e in
      let g' : get_elem? (durations cs ds) (k - c) ≡ some d =
        sym (get_elem?-past c x k (k - c) (durations cs ds) e) ∙ g in
      let t : (time + c * x % 2 ^ 64) % 2 ^ 64 ≡ time + c * x = omega (arith, st) in
      rw (past, t, st)
        (decode_time_loop_lem (k - c) (time + c * x) cs ds g' (omega (arith, st))
          ∙ ap (λ (u : ℕ). some (u, d)) (omega arith))
  | inr here ↦
      let lt : k < c = ground arith in
      let st = start_time-run c x k (durations cs ds) (omega arith) in
      let same : some x ≡ some d = sym (get_elem?-run c x k (durations cs ds) lt) ∙ g in
      rw (here, last_run k x time (omega (arith, st)), st) (cc same)
]

-- The decode time of the one-based sample `n + 1` that the table has is the sum of the durations of
-- the samples before it, if that fits 64 bits, and with it comes the sample's own duration.
pub get_decode_time_lem :
    (b : SttsBox) (n : ℕ) {d : ℕ}
    → get_elem? (durations b.sample_count b.sample_time_delta) n ≡ some d
    → IsUint64 (start_time n (durations b.sample_count b.sample_time_delta))
    → get_decode_time b (suc n)
      ≡ some (start_time n (durations b.sample_count b.sample_time_delta), d)
unfolding get_decode_time
get_decode_time_lem b n {d} g h =
    let cs = b.sample_count in
    let ds = b.sample_time_delta in
    decode_time_loop_lem n 0 cs ds g (omega (arith, h)) ∙ ap (λ (u : ℕ). some (u, d)) (omega arith)

dur_loop_lem :
    (k last : ℕ) (cs ds : List ℕ) {d : ℕ}
    → get_elem? (durations cs ds) k ≡ some d
    → dur_loop k last cs ds ≡ some d
unfolding dur_loop durations
dur_loop_lem k last [] ds g = cc
dur_loop_lem k last (c ∷ cs) [] g = cc
dur_loop_lem k last (c ∷ cs) (x ∷ ds) {d} g = elim (Bool-cases (leb c k)) [
  | inl past ↦
      let e : k ≡ c + (k - c) = ground arith in
      rw past
        (dur_loop_lem (k - c) x cs ds (sym (get_elem?-past c x k (k - c) (durations cs ds) e) ∙ g))
  | inr here ↦ rw here (sym (get_elem?-run c x k (durations cs ds) (ground arith)) ∙ g)
]

-- `GetDur` gives the duration of every sample that the table has.
pub get_dur_lem :
    (b : SttsBox) (n : ℕ) {d : ℕ}
    → get_elem? (durations b.sample_count b.sample_time_delta) n ≡ some d
    → get_dur b (suc n) ≡ some d
unfolding get_dur
get_dur_lem b n g = dur_loop_lem n 0 b.sample_count b.sample_time_delta g
