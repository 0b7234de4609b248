-- ===== src/Base/Digits.antt =====
-- The recursion on binary digits behind `&` and `|`, for any operation on two digits: how much of its
-- count of digits is needed, and the law for the lowest one.
use Prim.Native.Nat.{ℕ, zero, suc, ◌+◌, ◌*◌, ◌/◌, ◌%◌, ◌≤◌, digits, bitwise}
use mathlib.Core.Path.{◌≡◌, refl, ap, ◌∙◌, sym}
use native.Mathlib.Omega.{arith}

module _ (z : ℕ → ℕ) (f : ℕ → ℕ → ℕ) where
  digits-zero : (n b : ℕ) → digits z f n 0 b ≡ z b
  digits-zero zero b = refl
  digits-zero (suc n) b = refl

  -- A longer count than the first number changes nothing.
  digits_cut : (n m a b : ℕ) → a ≤ n → n ≤ m → digits z f m a b ≡ digits z f n a b
  digits_cut n m zero b p q = digits-zero m b ∙ sym (digits-zero n b)
  digits_cut zero m (suc a) b p q = absurd (omega arith)
  digits_cut (suc n) zero (suc a) b p q = absurd (omega arith)
  digits_cut (suc n) (suc m) (suc a) b p q =
      ap (λ x. x * 2 + f (suc a % 2) (b % 2))
        (digits_cut n m (suc a / 2) (b / 2) (omega arith) (omega arith))

  pub bitwise_step :
      ((b : ℕ) → z b ≡ z (b / 2) * 2 + f 0 (b % 2))
      → (a b : ℕ) → bitwise z f a b ≡ bitwise z f (a / 2) (b / 2) * 2 + f (a % 2) (b % 2)
  bitwise_step h zero b = h b
  bitwise_step h (suc a) b =
      ap (λ x. x * 2 + f (suc a % 2) (b % 2))
        (digits_cut (suc a / 2) a (suc a / 2) (b / 2) (omega arith) (omega arith))

  -- A second number without digits, by an operation that keeps or clears the other one.
  pub bitwise_unique :
      ((b : ℕ) → z b ≡ z (b / 2) * 2 + f 0 (b % 2))
      → (g : ℕ → ℕ) → (g 0 ≡ z 0)
      → ((a : ℕ) → g a ≡ g (a / 2) * 2 + f (a % 2) 0)
      → (n a : ℕ) → a ≤ n
      → bitwise z f a 0 ≡ g a
  bitwise_unique h g base step n zero p = sym base
  bitwise_unique h g base step zero (suc a) p = absurd (omega arith)
  bitwise_unique h g base step (suc n) (suc a) p =
      bitwise_step h (suc a) 0
      ∙ ap (λ x. x * 2 + f (suc a % 2) 0) (bitwise_unique h g base step n (suc a / 2) (omega arith))
      ∙ sym (step (suc a))
