-- ===== src/SampleTable/Stts/AtTime.antt =====
-- `GetSampleNrAtTime` of mp4/stts.go: the first sample at or after a time.
use native.Mathlib.Nat.{div-add-mod, mod-lt, mul-le-mul_right}
use mp4ff.Base.{
  ℕ, zero, suc, ◌+◌, ◌-◌, ◌*◌, ◌/◌, ◌%◌, ◌^◌, ◌<◌, ◌≤◌, ◌≡◌, inl, inr, refl, ap, ◌∙◌, arith, Option,
  none, some, List, [], ◌∷◌, length, ltb, leb, ◌==◌, if◌then◌else◌, Bool-cases,
}
use mp4ff.Base.Words.{IsUint32, IsUint64}
use mp4ff.Base.Action.{Result, ok}
use mp4ff.SampleTable.Stts.{SttsBox, at_time_loop, get_sample_nr_at_time}
use mp4ff.SampleTable.Stts.Lookup.{
  durations, start_time, start_time-run, start_time-past, length-run,
}

-- `k` samples of the durations start before `time`, and the next is at `time` or later, where the
-- first starts at `base`.
pub record FirstAt (time base k : ℕ) (ds : List ℕ) : Type 0 where
  pub reached : time ≤ base + start_time k ds
  pub first : (j : ℕ) → j < k → base + start_time j ds < time

abbrev pub round_up : ℕ → ℕ → ℕ
round_up rel d = if rel % d == 0 then rel / d else rel / d + 1

round_up_le : (rel c d : ℕ) → rel < c * d → round_up rel d ≤ c
round_up_le rel c d h = grind (arith, div-add-mod rel d)

round_up_ge : (rel d : ℕ) → 0 < d → rel ≤ round_up rel d * d
round_up_ge rel d h = grind (arith, div-add-mod rel d, mod-lt rel h)

round_up_first : (rel d j : ℕ) → 0 < d → j < round_up rel d → j * d < rel
round_up_first rel d j h lt = elim (Bool-cases (rel % d == 0)) [
  | inl e ↦
      let le : suc j ≤ rel / d = rw e at lt in
      let z : rel % d ≡ 0 = ground arith in
      omega (arith, mul-le-mul_right d le, div-add-mod rel d, z)
  | inr e ↦
      let le : j ≤ rel / d = omega (arith, rw e at lt) in
      let z : 0 < rel % d = ground arith in
      omega (arith, mul-le-mul_right d le, div-add-mod rel d, z)
]

-- A table of equally many counts and durations, with no duration of 0.
abbrev pub AllPositive : List ℕ → List ℕ → Type 0
AllPositive [] [] = Unit
AllPositive [] (d ∷ ds) = ⊥
AllPositive (c ∷ cs) [] = ⊥
AllPositive (c ∷ cs) (d ∷ ds) = (0 < d) × AllPositive cs ds

abbrev total : List ℕ → List ℕ → ℕ
total cs ds = start_time (length (durations cs ds)) (durations cs ds)

total-run : (c d : ℕ) (cs ds : List ℕ) → total (c ∷ cs) (d ∷ ds) ≡ c * d + total cs ds
total-run c d cs ds = rw (length-run c d cs ds) (
    unfold durations in
    start_time-past c d (c + length (durations cs ds)) (length (durations cs ds)) (durations cs ds)
      refl)

-- The run of `c` samples in which `time` falls.
FirstAt-run :
    (time base c d : ℕ) (cs ds : List ℕ)
    → 0 < d
    → base ≤ time
    → time < base + c * d
    → FirstAt time base (round_up (time - base) d) (durations (c ∷ cs) (d ∷ ds))
unfolding durations
FirstAt-run time base c d cs ds hd lo hi =
    let k = round_up (time - base) d in
    let kc : k ≤ c = round_up_le (time - base) c d (omega arith) in
    record {
      reached =
          omega (arith, start_time-run c d k (durations cs ds) kc, round_up_ge (time - base) d hd);
      first = λ j lt. omega (
        arith,
        start_time-run c d j (durations cs ds) (omega arith),
        round_up_first (time - base) d j hd lt,
      );
    }

-- A whole run before `time`.
FirstAt-past :
    (time base c d k : ℕ) (cs ds : List ℕ)
    → 0 < d
    → base + c * d ≤ time
    → FirstAt time (base + c * d) k (durations cs ds)
    → FirstAt time base (c + k) (durations (c ∷ cs) (d ∷ ds))
unfolding durations
FirstAt-past time base c d k cs ds hd lo f = record {
  reached = omega (arith, start_time-past c d (c + k) k (durations cs ds) refl, f.reached);
  first = λ j lt. elim (Bool-cases (ltb j c)) [
    | inl h ↦
        let le : suc j ≤ c = ground arith in
        omega (arith, start_time-run c d j (durations cs ds) (omega arith), mul-le-mul_right d le)
    | inr h ↦
        let e : j ≡ c + (j - c) = ground arith in
        omega
          (arith, start_time-past c d j (j - c) (durations cs ds) e, f.first (j - c) (omega arith))
  ];
}

-- What the search finds.
abbrev Found : ℕ → ℕ → ℕ → List ℕ → Option (Result ℕ) → Type 0
Found time base nr ds r =
    (k : ℕ) × (r ≡ some (ok (nr + k + 1))) × FirstAt time base k ds × (k ≤ length ds)

Found-past :
    (time base nr c d : ℕ) (cs ds : List ℕ) (r : Option (Result ℕ))
    → 0 < d
    → base + c * d ≤ time
    → Found time (base + c * d) (nr + c) (durations cs ds) r
    → Found time base nr (durations (c ∷ cs) (d ∷ ds)) r
Found-past time base nr c d cs ds r hd lo (k, e, f, le) = (
  c + k,
  e ∙ ap (λ (n : ℕ). some (ok n)) (omega arith),
  FirstAt-past time base c d k cs ds hd lo f,
  omega (arith, length-run c d cs ds, le),
)

at_time_loop-Found :
    (time base nr : ℕ) (last_c last_d : Option ℕ) (cs ds : List ℕ)
    → AllPositive cs ds
    → base ≤ time
    → time < base + total cs ds
    → IsUint64 (base + total cs ds)
    → IsUint32 (nr + length (durations cs ds) + 1)
    → Found time base nr (durations cs ds) (at_time_loop time base nr last_c last_d cs ds)
unfolding at_time_loop
at_time_loop-Found time base nr last_c last_d [] [] a lo hi ht hn =
    absurd (unfold durations start_time in omega arith)
at_time_loop-Found time base nr last_c last_d [] (d ∷ ds) a lo hi ht hn = absurd a
at_time_loop-Found time base nr last_c last_d (c ∷ cs) [] a lo hi ht hn = absurd a
at_time_loop-Found time base nr last_c last_d (c ∷ cs) (d ∷ ds) a lo hi ht hn =
    let tr = total-run c d cs ds in
    let lr = length-run c d cs ds in
    let e : (base + c * d % 2 ^ 64) % 2 ^ 64 ≡ base + c * d = omega (arith, tr) in
    elim (Bool-cases (ltb time (base + c * d))) [
      | inl here ↦
          let kc = round_up_le (time - base) c d (ground arith) in
          (
            round_up (time - base) d,
            rw (e, here) (ap (λ (n : ℕ). some (ok n)) (omega (arith, lr, kc))),
            FirstAt-run time base c d cs ds a.0 lo (ground arith),
            omega (arith, lr, kc),
          )
      | inr past ↦
          let e' : (base + d * c % 2 ^ 64) % 2 ^ 64 ≡ base + c * d = omega (arith, tr) in
          let n' : (nr + c) % 2 ^ 32 ≡ nr + c = omega (arith, lr) in
          let lo' : base + c * d ≤ time = ground arith in
          rw (e, past, e', n')
            (Found-past time base nr c d cs ds _ a.0 lo' (
              at_time_loop-Found time (base + c * d) (nr + c) (some c) (some d) cs ds a.1 lo'
                (omega (arith, tr)) (omega (arith, tr)) (omega (arith, lr))))
    ]

-- A time before the end of the table's last sample is found: the result is one more than the number
-- of samples that start before it, so that sample is the first at or after the time; it may be the
-- number behind the last sample. The table has no duration of 0, its total fits 64 bits and its
-- number of samples 32 bits.
pub get_sample_nr_at_time_lem :
    (b : SttsBox) (time : ℕ)
    → AllPositive b.sample_count b.sample_time_delta
    → time < total b.sample_count b.sample_time_delta
    → IsUint64 (total b.sample_count b.sample_time_delta)
    → IsUint32 (length (durations b.sample_count b.sample_time_delta) + 1)
    → (k : ℕ) × (get_sample_nr_at_time b time ≡ some (ok (k + 1)))
      × FirstAt time 0 k (durations b.sample_count b.sample_time_delta)
      × (k ≤ length (durations b.sample_count b.sample_time_delta))
unfolding get_sample_nr_at_time
get_sample_nr_at_time_lem b time a hi ht hn =
    let (k, r, f, le) =
      at_time_loop-Found time 0 0 none none b.sample_count b.sample_time_delta a (omega arith)
        (omega (arith, hi)) (omega (arith, ht)) (omega (arith, hn)) in
    (k, r ∙ ap (λ (n : ℕ). some (ok n)) (omega arith), f, le)

start_time_mono : (j k : ℕ) (ds : List ℕ) → j ≤ k → start_time j ds ≤ start_time k ds
unfolding start_time
start_time_mono zero k ds h = omega arith
start_time_mono (suc j) zero ds h = absurd (omega arith)
start_time_mono (suc j) (suc k) [] h = omega arith
start_time_mono (suc j) (suc k) (d ∷ ds) h = omega (arith, start_time_mono j k ds (omega arith))

-- A time inside the last sample has no sample at or after it, and yet gives no error: the result is
-- the number behind the last sample. The table has `suc n` samples and no duration of 0, and its
-- total fits 64 bits.
pub get_sample_nr_at_time_past_last :
    (b : SttsBox) (time n : ℕ)
    → AllPositive b.sample_count b.sample_time_delta
    → length (durations b.sample_count b.sample_time_delta) ≡ suc n
    → start_time n (durations b.sample_count b.sample_time_delta) < time
    → time < total b.sample_count b.sample_time_delta
    → IsUint64 (total b.sample_count b.sample_time_delta)
    → n + 2 < 2 ^ 32
    → get_sample_nr_at_time b time ≡ some (ok (n + 2))
get_sample_nr_at_time_past_last b time n a len lo hi ht hn =
    let ds = durations b.sample_count b.sample_time_delta in
    let (k, r, f, le) = get_sample_nr_at_time_lem b time a hi ht (omega (arith, len)) in
    last_one b time n k ds r len lo f le
  where
    last_one :
        (b : SttsBox) (time n k : ℕ) (ds : List ℕ)
        → get_sample_nr_at_time b time ≡ some (ok (k + 1))
        → length ds ≡ suc n
        → start_time n ds < time
        → FirstAt time 0 k ds
        → k ≤ length ds
        → get_sample_nr_at_time b time ≡ some (ok (n + 2))
    last_one b time n k ds r len lo f le = elim (Bool-cases (leb k n)) [
      | inl h ↦ absurd (omega (arith, start_time_mono k n ds (ground arith), f.reached, lo))
      | inr h ↦
          let e : k ≡ suc n = ground arith in r ∙ ap (λ (u : ℕ). some (ok u)) (omega (arith, e))
    ]
