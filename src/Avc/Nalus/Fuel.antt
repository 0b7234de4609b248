-- ===== src/Avc/Nalus/Fuel.antt =====
-- The loop over the NAL units ends, whatever the bytes of the sample are.
use mp4ff.Base.{
  ℕ, zero, suc, ◌+◌, ◌-◌, ◌%◌, ◌^◌, ◌<◌, ◌≤◌, ◌≡◌, ◌≢◌, inl, inr, arith, Option, none, some, List,
  Bytes, length, ltb, Bool-cases,
}
use mp4ff.Base.Words.{IsUint32}
use mp4ff.Base.Action.{Result, ok, err, out_of_fuel, header_too_short}
use mp4ff.Avc.Nalus.{prepend, length_field, nalus_loop, get_nalus_from_sample}

-- Whether the fuel has run out.
abbrev pub NoFuel : Option (Result (List Bytes)) → Type 0
NoFuel r = r ≡ some (err out_of_fuel)

abbrev IsStuck : Option (Result (List Bytes)) → Type 0
IsStuck none = ⊥
IsStuck (some (ok nalus)) = ⊥
IsStuck (some (err out_of_fuel)) = Unit
IsStuck (some (err _)) = ⊥

NoFuel-IsStuck : (r : Option (Result (List Bytes))) → NoFuel r → IsStuck r
NoFuel-IsStuck r e = rw e tt

prepend-IsStuck :
    (nalu : Bytes) (r : Option (Result (List Bytes))) → IsStuck (prepend nalu r) → IsStuck r
prepend-IsStuck nalu none h = h
prepend-IsStuck nalu (some (err e)) h = h
prepend-IsStuck nalu (some (ok nalus)) h = h

enough_fuel :
    (fuel : ℕ) (sample : Bytes) (pos : ℕ)
    → IsUint32 (length sample)
    → pos ≤ length sample
    → length sample < fuel + pos
    → ¬ IsStuck (nalus_loop fuel sample pos)
unfolding nalus_loop
enough_fuel zero sample pos h l f = absurd (omega arith)
enough_fuel (suc fuel) sample pos h l f =
    let n = length_field sample pos in
    let start = (pos + 4) % 2 ^ 32 in
    let stop = (start + n) % 2 ^ 32 in
    elim (Bool-cases (ltb pos ((length sample - 4) % 2 ^ 32))) [
      | inr done ↦ rw done (λ s. s)
      | inl more ↦ elim (Bool-cases (ltb (length sample) stop)) [
        | inl over ↦ rw (more, over) (λ s. s)
        | inr within ↦ elim (Bool-cases (ltb stop start)) [
          | inl back ↦ rw (more, within, back) (λ s. s)
          | inr on ↦
              let later : length sample < fuel + stop = ground arith in
              rw (more, within, on)
                (λ s. enough_fuel fuel sample stop h (ground arith) later (prepend-IsStuck _ _ s))
        ]
      ]
    ]

-- The loop of `GetNalusFromSample` ends for every sample of fewer than 2^32 bytes, well-formed or not:
-- the model's fuel does not run out.
pub get_nalus_from_sample-terminates :
    (sample : Bytes)
    → IsUint32 (length sample)
    → get_nalus_from_sample sample ≢ some (err out_of_fuel)
unfolding get_nalus_from_sample
get_nalus_from_sample-terminates sample h = elim (Bool-cases (ltb (length sample) 4)) [
  | inl short ↦ rw short (λ e. NoFuel-IsStuck (some (err header_too_short)) e)
  | inr long ↦ rw long (λ e.
      enough_fuel (suc (length sample)) sample 0 h (omega arith) (omega arith)
        (NoFuel-IsStuck (nalus_loop (suc (length sample)) sample 0) e))
]
