-- ===== src/Base/Binary.antt =====
-- Binary digits: the bits of a number, highest first, and the laws of `|` and of masks that the
-- code's packing of fields rests on.
use Prim.Native.Nat.{
  ℕ, zero, suc, ◌+◌, ◌-◌, ◌*◌, ◌/◌, ◌%◌, ◌^◌, ◌≤◌, ◌<◌, max, bit_or, bit_or-bitwise,
}
use native.Mathlib.Nat.{two-pow-succ, mod-add-div'}
use mathlib.Core.Path.{◌≡◌, refl, ap, ◌∙◌, sym}
use mathlib.Core.List.{List, [], ◌∷◌, ◌++◌, append-nil, append_assoc}
use native.Mathlib.Omega.{arith}
use mp4ff.Base.Digits.{bitwise_step, bitwise_unique}
use mp4ff.Base.Lists.{length, length-append, append_cancel}

or_zero_step : (b : ℕ) → b ≡ b / 2 * 2 + max 0 (b % 2)
or_zero_step b = omega arith

-- The lowest digit of `|`.
pub bit_or_step : (a b : ℕ) → bit_or a b ≡ bit_or (a / 2) (b / 2) * 2 + max (a % 2) (b % 2)
bit_or_step a b = omega (
  arith,
  bit_or-bitwise a b,
  bit_or-bitwise (a / 2) (b / 2),
  bitwise_step (λ b. b) max or_zero_step a b,
)

pub bit_or-zero : (a : ℕ) → bit_or a 0 ≡ a
bit_or-zero a =
    bit_or-bitwise a 0
    ∙ bitwise_unique (λ b. b) max or_zero_step (λ a. a) refl (λ a. omega arith) a a (omega arith)

double : (k : ℕ) → 2 ^ suc k ≡ 2 * 2 ^ k
double k = omega (arith, two-pow-succ k)

shift_suc : (a k : ℕ) → a * 2 ^ suc k ≡ a * 2 ^ k * 2
shift_suc a k = rw (double k) (grind arith)

-- `a << k | b`, where `b` has at most `k` bits.
pub bit_or-add : (k a b : ℕ) → b < 2 ^ k → bit_or (a * 2 ^ k) b ≡ a * 2 ^ k + b
bit_or-add zero a b h =
    let e : a * 2 ^ 0 ≡ a = omega arith in
    let e' : b ≡ 0 = omega arith in rw (e, e') (omega (arith, bit_or-zero a))
bit_or-add (suc k) a b h =
    let half : a * 2 ^ k * 2 / 2 ≡ a * 2 ^ k = omega arith in
    let small : b / 2 < 2 ^ k = omega (arith, double k) in
    rw (shift_suc a k)
      (rw (bit_or_step (a * 2 ^ k * 2) b) (rw half (omega (arith, bit_or-add k a (b / 2) small))))

unfoldable pub bits_of : ℕ → ℕ → List ℕ
bits_of zero v = []
bits_of (suc k) v = bits_of k (v / 2) ++ (v % 2 ∷ [])

pub length-bits_of : (k v : ℕ) → length (bits_of k v) ≡ k
unfolding bits_of
length-bits_of zero v = refl
length-bits_of (suc k) v =
    omega (arith, length-append (bits_of k (v / 2)) (v % 2 ∷ []), length-bits_of k (v / 2))

-- The bits of `v << k | b` are those of `v` and of `b`.
pub bits_of-append :
    (m k v b : ℕ) → b < 2 ^ k → bits_of (m + k) (v * 2 ^ k + b) ≡ bits_of m v ++ bits_of k b
unfolding bits_of
bits_of-append m zero v b h =
    let e : m + 0 ≡ m = omega arith in
    let e' : v * 2 ^ 0 + b ≡ v = omega arith in rw (e, e', append-nil)
bits_of-append m (suc k) v b h =
    let e : m + suc k ≡ suc (m + k) = omega arith in
    let half : (v * 2 ^ k * 2 + b) / 2 ≡ v * 2 ^ k + b / 2 = omega arith in
    let bit : (v * 2 ^ k * 2 + b) % 2 ≡ b % 2 = omega arith in
    let small : b / 2 < 2 ^ k = omega (arith, double k) in
    rw e (
      rw (shift_suc v k) (
        rw (half, bit)
          (ap (λ bs. bs ++ (b % 2 ∷ [])) (bits_of-append m k v (b / 2) small)
            ∙ append_assoc (bits_of m v) (bits_of k (b / 2)) (b % 2 ∷ []))))

-- What the bits say of the number that they are of.
unfoldable pub bits_value : ℕ → List ℕ → ℕ
bits_value acc [] = acc
bits_value acc (b ∷ bs) = bits_value (acc * 2 + b) bs

bits_value-append :
    (acc : ℕ) (xs ys : List ℕ) → bits_value acc (xs ++ ys) ≡ bits_value (bits_value acc xs) ys
unfolding bits_value
bits_value-append acc [] ys = refl
bits_value-append acc (x ∷ xs) ys = bits_value-append (acc * 2 + x) xs ys

pub bits_value-bits_of : (k v : ℕ) → v < 2 ^ k → bits_value 0 (bits_of k v) ≡ v
unfolding bits_value bits_of
bits_value-bits_of zero v h = omega arith
bits_value-bits_of (suc k) v h =
    let small : v / 2 < 2 ^ k = omega (arith, double k) in
    rw (bits_value-append 0 (bits_of k (v / 2)) (v % 2 ∷ []))
      (omega (arith, bits_value-bits_of k (v / 2) small))

-- Numbers below `2 ^ k` with the same `k` bits are the same.
pub bits_of-injective : (k u v : ℕ) → u < 2 ^ k → v < 2 ^ k → bits_of k u ≡ bits_of k v → u ≡ v
bits_of-injective k u v hu hv e =
    sym (bits_value-bits_of k u hu) ∙ ap (bits_value 0) e ∙ bits_value-bits_of k v hv

pub pow_pos : (k : ℕ) → 0 < 2 ^ k
pow_pos zero = omega arith
pow_pos (suc k) = omega (arith, double k, pow_pos k)

pub two_pow_add : (m k : ℕ) → 2 ^ (m + k) ≡ 2 ^ m * 2 ^ k
two_pow_add m zero = let e : m + 0 ≡ m = omega arith in rw e (omega arith)
two_pow_add m (suc k) =
    let e : m + suc k ≡ suc (m + k) = omega arith in
    rw (e, double (m + k), double k, two_pow_add m k) (grind arith)

-- The highest `m` bits, and the `k` bits behind them.
pub bits_of-split : (m k v : ℕ) → bits_of (m + k) v ≡ bits_of m (v / 2 ^ k) ++ bits_of k (v % 2 ^ k)
bits_of-split m k v =
    let small : v % 2 ^ k < 2 ^ k = grind (arith, pow_pos k) in
    let parts : v / 2 ^ k * 2 ^ k + v % 2 ^ k ≡ v = omega (arith, mod-add-div' v (2 ^ k)) in
    ap (bits_of (m + k)) (sym parts) ∙ bits_of-append m k (v / 2 ^ k) (v % 2 ^ k) small

-- Only the lowest `k` bits of a number are read.
pub bits_of-mod : (k v : ℕ) → bits_of k (v % 2 ^ k) ≡ bits_of k v
unfolding bits_of
bits_of-mod k v = let e : 0 + k ≡ k = omega arith in sym (rw e at (bits_of-split 0 k v))

-- A mask that is wider than the bits that are read changes none of them.
pub bits_of-mod_le : (n m v : ℕ) → n ≤ m → bits_of n (v % 2 ^ m) ≡ bits_of n v
bits_of-mod_le n m v h =
    let e : m - n + n ≡ m = omega arith in
    let masked = rw e at (bits_of-split (m - n) n (v % 2 ^ m)) in
    let whole = rw e at (bits_of-split (m - n) n v) in
    let (_, same) =
      append_cancel (bits_of (m - n) (v % 2 ^ m / 2 ^ n)) (bits_of (m - n) (v / 2 ^ n))
        (bits_of n (v % 2 ^ m % 2 ^ n)) (bits_of n (v % 2 ^ n))
        (length-bits_of (m - n) _ ∙ sym (length-bits_of (m - n) _))
        (sym masked ∙ bits_of-mod m v ∙ whole) in
    sym (bits_of-mod n (v % 2 ^ m)) ∙ same ∙ bits_of-mod n v

-- `x | b`, where `x` has no bits below the `k`th, and `b` none from there on.
pub bit_or-disjoint : (k x b : ℕ) → x % 2 ^ k ≡ 0 → b < 2 ^ k → bit_or x b ≡ x + b
bit_or-disjoint k x b h small =
    let e : x / 2 ^ k * 2 ^ k ≡ x = omega (arith, mod-add-div' x (2 ^ k)) in
    rw e at (bit_or-add k (x / 2 ^ k) b small)
