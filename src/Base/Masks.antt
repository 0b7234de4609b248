-- ===== src/Base/Masks.antt =====
-- The laws of `&` with masks, and the bits of `&` and `|`, from the recursion on binary digits.
use Prim.Native.Nat.{
  ℕ, zero, suc, ◌+◌, ◌*◌, ◌/◌, ◌%◌, ◌^◌, min, max, bit_and, bit_or, bit_xor, bit_xor-bitwise,
  differ, ◌≤◌, ◌<◌, bit_and-bitwise,
}
use native.Mathlib.Nat.{two-pow-succ, div-div-eq-div-mul}
use mathlib.Core.Path.{◌≡◌, refl, ◌∙◌, sym}
use native.Mathlib.Omega.{arith}
use mp4ff.Base.Digits.{bitwise_step, bitwise_unique}
use mp4ff.Base.Binary.{bit_or_step}

and_zero_step : (b : ℕ) → 0 ≡ 0 * 2 + min 0 (b % 2)
and_zero_step b = omega arith

-- The lowest digit of `&`.
pub bit_and_step : (a b : ℕ) → bit_and a b ≡ bit_and (a / 2) (b / 2) * 2 + min (a % 2) (b % 2)
bit_and_step a b = omega (
  arith,
  bit_and-bitwise a b,
  bit_and-bitwise (a / 2) (b / 2),
  bitwise_step (λ b. 0) min and_zero_step a b,
)

pub bit_and-zero : (a : ℕ) → bit_and a 0 ≡ 0
bit_and-zero a =
    bit_and-bitwise a 0
    ∙ bitwise_unique (λ b. 0) min and_zero_step (λ a. 0) refl (λ a. omega arith) a a (omega arith)

abbrev pub bit_at : ℕ → ℕ → ℕ
bit_at k n = n / 2 ^ k % 2

half_pow : (k n : ℕ) → n / 2 ^ suc k ≡ n / 2 / 2 ^ k
half_pow k n =
    let e : 2 ^ suc k ≡ 2 * 2 ^ k = omega (arith, two-pow-succ k) in
    rw e (sym (div-div-eq-div-mul n 2 (2 ^ k)))

pub bit_at-bit_and : (k a b : ℕ) → bit_at k (bit_and a b) ≡ min (bit_at k a) (bit_at k b)
bit_at-bit_and zero a b = omega (arith, bit_and_step a b)
bit_at-bit_and (suc k) a b =
    let half : bit_and a b / 2 ≡ bit_and (a / 2) (b / 2) = omega (arith, bit_and_step a b) in
    rw (half_pow k (bit_and a b), half_pow k a, half_pow k b, half)
      (bit_at-bit_and k (a / 2) (b / 2))

pub bit_at-bit_or : (k a b : ℕ) → bit_at k (bit_or a b) ≡ max (bit_at k a) (bit_at k b)
bit_at-bit_or zero a b = omega (arith, bit_or_step a b)
bit_at-bit_or (suc k) a b =
    let half : bit_or a b / 2 ≡ bit_or (a / 2) (b / 2) = omega (arith, bit_or_step a b) in
    rw (half_pow k (bit_or a b), half_pow k a, half_pow k b, half) (bit_at-bit_or k (a / 2) (b / 2))

-- A mask of one bit.
pub bit_and-pow : (k a : ℕ) → bit_and a (2 ^ k) ≡ bit_at k a * 2 ^ k
bit_and-pow zero a = omega (arith, bit_and_step a 1, bit_and-zero (a / 2))
bit_and-pow (suc k) a =
    let e : 2 ^ suc k ≡ 2 ^ k * 2 = omega (arith, two-pow-succ k) in
    let half : 2 ^ k * 2 / 2 ≡ 2 ^ k = omega arith in
    let step = bit_and_step a (2 ^ k * 2) in
    let rest = bit_and-pow k (a / 2) in
    rw (half_pow k a, e) (rw half at step ∙ rw rest (grind arith))

xor_zero_step : (b : ℕ) → b ≡ b / 2 * 2 + differ 0 (b % 2)
xor_zero_step b = omega arith

bit_xor_step : (a b : ℕ) → bit_xor a b ≡ bit_xor (a / 2) (b / 2) * 2 + differ (a % 2) (b % 2)
bit_xor_step a b = omega (
  arith,
  bit_xor-bitwise a b,
  bit_xor-bitwise (a / 2) (b / 2),
  bitwise_step (λ b. b) differ xor_zero_step a b,
)

differ_bits : (x y : ℕ) → x < 2 → y < 2 → (differ x y < 2) × (differ (differ x y) y ≡ x)
differ_bits zero zero p q = (omega arith, refl)
differ_bits zero (suc zero) p q = (omega arith, refl)
differ_bits (suc zero) zero p q = (omega arith, refl)
differ_bits (suc zero) (suc zero) p q = (omega arith, refl)
differ_bits (suc (suc x)) y p q = absurd (omega arith)
differ_bits zero (suc (suc y)) p q = absurd (omega arith)
differ_bits (suc zero) (suc (suc y)) p q = absurd (omega arith)

xor_twice : (n a b : ℕ) → a ≤ n → b ≤ n → bit_xor (bit_xor a b) b ≡ a
xor_twice zero a b p q =
    let e : a ≡ 0 = omega arith in let f : b ≡ 0 = omega arith in rw (e, f) refl
xor_twice (suc n) a b p q =
    let c = bit_xor a b in
    let (small, back) = differ_bits (a % 2) (b % 2) (omega arith) (omega arith) in
    let step = bit_xor_step a b in
    let half : c / 2 ≡ bit_xor (a / 2) (b / 2) = omega arith in
    let low : c % 2 ≡ differ (a % 2) (b % 2) = omega arith in
    let again : bit_xor (c / 2) (b / 2) ≡ a / 2 =
      rw half (xor_twice n (a / 2) (b / 2) (omega arith) (omega arith)) in
    let low' : differ (c % 2) (b % 2) ≡ a % 2 = rw low back in
    omega (arith, bit_xor_step c b, again, low')

-- A second `^` undoes the first.
pub bit_xor-undone : (a b : ℕ) → bit_xor (bit_xor a b) b ≡ a
bit_xor-undone a b = xor_twice (a + b) a b (omega arith) (omega arith)
