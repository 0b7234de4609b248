-- ===== src/Fragment/SampleFlags/RoundTrip.antt =====
-- Sample flags are decoded to the fields that they were encoded from, and back.
use Prim.Native.Nat.{bit_or}
use mp4ff.Base.{ℕ, ◌+◌, ◌*◌, ◌/◌, ◌%◌, ◌^◌, ◌<◌, ◌≡◌, arith, Bool, true, false, ◌==◌, if◌then◌else◌}
use mp4ff.Base.Words.{IsUint16}
use mp4ff.Base.Binary.{bit_or-disjoint}
use mp4ff.Fragment.SampleFlags.{SampleFlags, encode_sample_flags, decode_sample_flags}

-- Every field fits the bits that it has.
pub record IsValid (sf : SampleFlags) : Type 0 where
  pub leading : sf.is_leading < 4
  pub depends : sf.sample_depends_on < 4
  pub depended : sf.sample_is_depended_on < 4
  pub redundancy : sf.sample_has_redundancy < 4
  pub padding : sf.sample_padding_value < 8
  pub priority : IsUint16 sf.sample_degradation_priority

abbrev sync_bit : Bool → ℕ
sync_bit b = if b then 2 ^ 16 else 0

add_sync :
    (b : Bool) (x : ℕ)
    → x % 2 ^ 17 ≡ 0
    → ((if b then bit_or x (2 ^ 16) else x) ≡ x + sync_bit b) × ((x + sync_bit b) % 2 ^ 16 ≡ 0)
add_sync true x h = (bit_or-disjoint 17 x (2 ^ 16) h (omega arith), omega arith)
add_sync false x h = (omega arith, omega arith)

-- The fields lie next to one another.
encode_sum :
    (sf : SampleFlags)
    → IsValid sf
    → encode_sample_flags sf
      ≡ sf.is_leading * 2 ^ 26
        + sf.sample_depends_on * 2 ^ 24
        + sf.sample_is_depended_on * 2 ^ 22
        + (sf.sample_has_redundancy * 2 ^ 20 + sf.sample_padding_value * 2 ^ 17)
        + sync_bit sf.sample_is_non_sync
        + sf.sample_degradation_priority
unfolding encode_sample_flags
encode_sum sf v =
    let a = sf.is_leading * 2 ^ 26 in
    let b = sf.sample_depends_on * 2 ^ 24 in
    let c = sf.sample_is_depended_on * 2 ^ 22 in
    let d = sf.sample_has_redundancy * 2 ^ 20 in
    let p = sf.sample_padding_value * 2 ^ 17 in
    let a' : a % 2 ^ 32 ≡ a = omega (arith, v.leading) in
    let b' : b % 2 ^ 32 ≡ b = omega (arith, v.depends) in
    let c' : c % 2 ^ 32 ≡ c = omega (arith, v.depended) in
    let d' : d % 2 ^ 32 ≡ d = omega (arith, v.redundancy) in
    let p' : p % 2 ^ 32 ≡ p = omega (arith, v.padding) in
    let ab = bit_or-disjoint 26 a b (omega arith) (omega (arith, v.depends)) in
    let abc = bit_or-disjoint 24 (a + b) c (omega arith) (omega (arith, v.depended)) in
    let dp = bit_or-disjoint 20 d p (omega arith) (omega (arith, v.padding)) in
    let all =
      bit_or-disjoint 22 (a + b + c) (d + p) (omega arith)
        (omega (arith, v.redundancy, v.padding)) in
    let (sync, even) = add_sync sf.sample_is_non_sync (a + b + c + (d + p)) (omega arith) in
    let whole =
      bit_or-disjoint 16 (a + b + c + (d + p) + sync_bit sf.sample_is_non_sync)
        sf.sample_degradation_priority even v.priority in
    rw (a', b', c', d', p', ab, abc, dp, all, sync, whole)

abbrev bit_of : Bool → ℕ
bit_of b = if b then 1 else 0

sync_bit_lem : (b : Bool) → (sync_bit b ≡ bit_of b * 2 ^ 16) × (bit_of b < 2)
sync_bit_lem true = (omega arith, omega arith)
sync_bit_lem false = (omega arith, omega arith)

bit_of-test : (n : ℕ) (b : Bool) → n ≡ bit_of b → (n == 1) ≡ b
bit_of-test n true h = rw h
bit_of-test n false h = rw h

-- Sample flags whose fields fit their bits are decoded to the same fields from the 32 bits that they
-- are encoded to.
pub sample_flags_round_trip :
    (sf : SampleFlags) → IsValid sf → decode_sample_flags (encode_sample_flags sf) ≡ sf
unfolding decode_sample_flags
sample_flags_round_trip sf v =
    let u = encode_sample_flags sf in
    let e = encode_sum sf v in
    let s = sync_bit_lem sf.sample_is_non_sync in
    let leading : u / 2 ^ 26 % 4 ≡ sf.is_leading = omega (arith, e, s) in
    let depends : u / 2 ^ 24 % 4 ≡ sf.sample_depends_on = omega (arith, e, s) in
    let depended : u / 2 ^ 22 % 4 ≡ sf.sample_is_depended_on = omega (arith, e, s) in
    let redundancy : u / 2 ^ 20 % 4 ≡ sf.sample_has_redundancy = omega (arith, e, s) in
    let padding : u / 2 ^ 17 % 8 ≡ sf.sample_padding_value = omega (arith, e, s) in
    let bit : u / 2 ^ 16 % 2 ≡ bit_of sf.sample_is_non_sync = omega (arith, e, s) in
    let priority : u % 2 ^ 16 ≡ sf.sample_degradation_priority = omega (arith, e, s) in
    λ i. record {
      is_leading = leading i;
      sample_depends_on = depends i;
      sample_is_depended_on = depended i;
      sample_has_redundancy = redundancy i;
      sample_padding_value = padding i;
      sample_is_non_sync = bit_of-test _ sf.sample_is_non_sync bit i;
      sample_degradation_priority = priority i;
    }

-- Any 32 bits are encoded again from the flags that they are decoded to, but for the 4 reserved bits
-- at the top, which come back as zeros.
pub encode-decode_sample_flags : (u : ℕ) → encode_sample_flags (decode_sample_flags u) ≡ u % 2 ^ 28
unfolding decode_sample_flags
encode-decode_sample_flags u =
    let sf = decode_sample_flags u in
    let v : IsValid sf = record {
      leading = omega arith;
      depends = omega arith;
      depended = omega arith;
      redundancy = omega arith;
      padding = omega arith;
      priority = omega arith;
    } in
    let bit : sync_bit (u / 2 ^ 16 % 2 == 1) ≡ u / 2 ^ 16 % 2 * 2 ^ 16 = ground arith in
    omega (arith, encode_sum sf v, bit)
