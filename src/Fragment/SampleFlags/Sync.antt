-- ===== src/Fragment/SampleFlags/Sync.antt =====
-- What the sync test and the setters of sample flags say of the bits.
use Prim.Native.Nat.{bit_and, bit_or, min, max}
use mp4ff.Base.{ℕ, ◌+◌, ◌/◌, ◌%◌, ◌^◌, ◌≡◌, ◌∙◌, arith, true, false, ◌==◌}
use mp4ff.Base.Masks.{bit_at, bit_at-bit_and, bit_at-bit_or, bit_and-pow}
use mp4ff.Base.Int.{ℤ}
use mp4ff.Fragment.Samples.{new_sample, is_sync}
use mp4ff.Fragment.SampleFlags.{
  decode_sample_flags, is_sync_sample_flags, set_sync_sample_flags, set_non_sync_sample_flags,
  complement,
}

is_sync-bit : (flags : ℕ) → is_sync_sample_flags flags ≡ (bit_at 25 flags == 1)
unfolding is_sync_sample_flags
is_sync-bit flags = rw (bit_and-pow 25 flags) (ground arith)

set_sync-bit :
    (k flags : ℕ)
    → bit_at k (set_sync_sample_flags flags)
      ≡ max (min (bit_at k flags) (bit_at k (complement (2 ^ 16)))) (bit_at k (2 ^ 25))
unfolding set_sync_sample_flags
set_sync-bit k flags =
    rw (bit_at-bit_or k (bit_and flags (complement (2 ^ 16))) (2 ^ 25))
      (rw (bit_at-bit_and k flags (complement (2 ^ 16))))

set_non_sync-bit :
    (k flags : ℕ)
    → bit_at k (set_non_sync_sample_flags flags)
      ≡ max
          (max (min (bit_at k flags) (bit_at k (complement (2 ^ 25)))) (bit_at k (2 ^ 16)))
          (bit_at k (2 ^ 24))
unfolding set_non_sync_sample_flags
set_non_sync-bit k flags =
    rw (bit_at-bit_or k (bit_or (bit_and flags (complement (2 ^ 25))) (2 ^ 16)) (2 ^ 24)) (
      rw (bit_at-bit_or k (bit_and flags (complement (2 ^ 25))) (2 ^ 16))
        (rw (bit_at-bit_and k flags (complement (2 ^ 25)))))

one-test : {n : ℕ} → n ≡ 1 → (n == 1) ≡ true
one-test h = rw h

zero-test : {n : ℕ} → n ≡ 0 → (n == 1) ≡ false
zero-test h = rw h

two-test : (k n : ℕ) → n ≡ 2 + k → (n == 2) ≡ (k == 0)
two-test k n h = rw h (ground arith)

-- Flags that were set to sync pass `IsSyncSampleFlags`, and are decoded to a sample that is not non-sync
-- and depends on 2 plus bit 24 of the flags before, which is not cleared: `Sample.IsSync`, which compares
-- with 2, takes the sample for a sync sample if and only if that bit was 0. Flags that were set to
-- non-sync fail both tests, and are decoded to a sample that is non-sync and depends on 1.
pub set_sync_sample_flags_lem :
    (flags dur size : ℕ) (cto : ℤ)
    → (is_sync_sample_flags (set_sync_sample_flags flags) ≡ true)
      × ((decode_sample_flags (set_sync_sample_flags flags)).sample_is_non_sync ≡ false)
      × ((decode_sample_flags (set_sync_sample_flags flags)).sample_depends_on
          ≡ 2 + flags / 2 ^ 24 % 2)
      × (is_sync (new_sample (set_sync_sample_flags flags) dur size cto)
          ≡ (flags / 2 ^ 24 % 2 == 0))
      × (is_sync_sample_flags (set_non_sync_sample_flags flags) ≡ false)
      × ((decode_sample_flags (set_non_sync_sample_flags flags)).sample_is_non_sync ≡ true)
      × ((decode_sample_flags (set_non_sync_sample_flags flags)).sample_depends_on ≡ 1)
      × (is_sync (new_sample (set_non_sync_sample_flags flags) dur size cto) ≡ false)
unfolding decode_sample_flags is_sync new_sample
set_sync_sample_flags_lem flags dur size cto =
    let s = set_sync_sample_flags flags in
    let n = set_non_sync_sample_flags flags in
    let n25 = set_non_sync-bit 25 flags in
    let n24 = set_non_sync-bit 24 flags in
    let s_sync : (s / 2 ^ 16 % 2 == 1) ≡ false = zero-test (omega (arith, set_sync-bit 16 flags)) in
    let s_depends : s / 2 ^ 24 % 4 ≡ 2 + flags / 2 ^ 24 % 2 =
      omega (arith, set_sync-bit 24 flags, set_sync-bit 25 flags) in
    let n_sync : (n / 2 ^ 16 % 2 == 1) ≡ true =
      one-test (omega (arith, set_non_sync-bit 16 flags)) in
    (
      is_sync-bit s ∙ one-test (omega (arith, set_sync-bit 25 flags)),
      s_sync,
      s_depends,
      rw (s_sync, two-test (flags / 2 ^ 24 % 2) (s / 2 ^ 24 % 4) s_depends),
      is_sync-bit n ∙ zero-test (omega (arith, n25)),
      n_sync,
      omega (arith, n24, n25),
      rw n_sync,
    )
