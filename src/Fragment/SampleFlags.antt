-- ===== src/Fragment/SampleFlags.antt =====
-- mp4/sampleflags.go: the fields of a sample's flags, packed into 32 bits.
pub mod RoundTrip
pub mod Sync
use Prim.Native.Nat.{bit_and, bit_or}
use mp4ff.Base.{ℕ, ◌+◌, ◌-◌, ◌*◌, ◌/◌, ◌%◌, ◌^◌, Bool, ◌==◌, if◌then◌else◌}

pub record SampleFlags : Type 0 where
  pub is_leading : ℕ
  pub sample_depends_on : ℕ
  pub sample_is_depended_on : ℕ
  pub sample_has_redundancy : ℕ
  pub sample_padding_value : ℕ
  pub sample_is_non_sync : Bool
  pub sample_degradation_priority : ℕ

abbrev pub shl32 : ℕ → ℕ → ℕ
shl32 x k = x * 2 ^ k % 2 ^ 32

unfoldable pub encode_sample_flags : SampleFlags → ℕ
encode_sample_flags sf =
    let first =
      bit_or (bit_or (shl32 sf.is_leading 26) (shl32 sf.sample_depends_on 24))
        (shl32 sf.sample_is_depended_on 22) in
    let second =
      bit_or first
        (bit_or (shl32 sf.sample_has_redundancy 20) (shl32 sf.sample_padding_value 17)) in
    let third = if sf.sample_is_non_sync then bit_or second (2 ^ 16) else second in
    bit_or third sf.sample_degradation_priority

abbrev pub sync_sample_flags : ℕ
sync_sample_flags = 2 ^ 25

abbrev pub non_sync_sample_flags : ℕ
non_sync_sample_flags = 2 ^ 16

abbrev pub sample_depends_on1 : ℕ
sample_depends_on1 = 2 ^ 24

-- `^x`, of 32 bits.
abbrev pub complement : ℕ → ℕ
complement x = 2 ^ 32 - 1 - x

unfoldable pub is_sync_sample_flags : ℕ → Bool
is_sync_sample_flags flags = bit_and flags sync_sample_flags == sync_sample_flags

unfoldable pub set_sync_sample_flags : ℕ → ℕ
set_sync_sample_flags flags =
    bit_or (bit_and flags (complement non_sync_sample_flags)) sync_sample_flags

unfoldable pub set_non_sync_sample_flags : ℕ → ℕ
set_non_sync_sample_flags flags =
    bit_or (bit_or (bit_and flags (complement sync_sample_flags)) non_sync_sample_flags)
      sample_depends_on1

-- Masks of ones are remainders.
unfoldable pub decode_sample_flags : ℕ → SampleFlags
decode_sample_flags u = record {
  is_leading = u / 2 ^ 26 % 4;
  sample_depends_on = u / 2 ^ 24 % 4;
  sample_is_depended_on = u / 2 ^ 22 % 4;
  sample_has_redundancy = u / 2 ^ 20 % 4;
  sample_padding_value = u / 2 ^ 17 % 8;
  sample_is_non_sync = u / 2 ^ 16 % 2 == 1;
  sample_degradation_priority = u % 2 ^ 16;
}
