-- ===== src/Base/Bits/Step.antt =====
-- The native bit operations stand for `bitwise`, a digit recursion on fuel. Without the fuel: the
-- value is that of the halves, doubled, plus the operation on the lowest digits.
use Prim.Native.Nat.{ℕ, zero, suc, ◌+◌, ◌*◌, ◌/◌, ◌%◌, ◌≤◌, ◌<◌, min, max, digits, bitwise, differ}
use Prim.Native.Nat.{bit_and, bit_or, bit_xor, bit_and-bitwise, bit_or-bitwise, bit_xor-bitwise}
use mathlib.Core.Path.{◌≡◌, refl}
use native.Mathlib.Omega.{arith}

module _ (left : ℕ → ℕ) (f : ℕ → ℕ → ℕ) where
  enough_fuel : (n m a b : ℕ) → a ≤ n → a ≤ m → digits left f n a b ≡ digits left f m a b
  enough_fuel zero zero a b p q = refl
  enough_fuel zero (suc m) zero b p q = refl
  enough_fuel zero (suc m) (suc a) b p q = absurd (omega arith)
  enough_fuel (suc n) zero zero b p q = refl
  enough_fuel (suc n) zero (suc a) b p q = absurd (omega arith)
  enough_fuel (suc n) (suc m) zero b p q = refl
  enough_fuel (suc n) (suc m) (suc a) b p q =
      omega (arith, enough_fuel n m (suc a / 2) (b / 2) (omega arith) (omega arith))

  bitwise_step :
      (a b : ℕ)
      → bitwise left f (suc a) b ≡ bitwise left f (suc a / 2) (b / 2) * 2 + f (suc a % 2) (b % 2)
  bitwise_step a b =
      omega (arith, enough_fuel a (suc a / 2) (suc a / 2) (b / 2) (omega arith) (omega arith))

pub bit_and_step : (x y : ℕ) → bit_and x y ≡ bit_and (x / 2) (y / 2) * 2 + min (x % 2) (y % 2)
bit_and_step zero y = simp bit_and-bitwise (omega arith)
bit_and_step (suc n) y = simp bit_and-bitwise (bitwise_step (λ d. 0) min n y)

bit_xor_digits : (x y : ℕ) → bit_xor x y ≡ bit_xor (x / 2) (y / 2) * 2 + differ (x % 2) (y % 2)
bit_xor_digits zero y = simp bit_xor-bitwise (ground arith)
bit_xor_digits (suc n) y = simp bit_xor-bitwise (bitwise_step (λ d. d) differ n y)

pub bit_or_step : (x y : ℕ) → bit_or x y ≡ bit_or (x / 2) (y / 2) * 2 + max (x % 2) (y % 2)
bit_or_step zero y = simp bit_or-bitwise (omega arith)
bit_or_step (suc n) y = simp bit_or-bitwise (bitwise_step (λ d. d) max n y)

differ_digits : (a b : ℕ) → a < 2 → b < 2 → differ a b ≡ (a + b) % 2
differ_digits zero zero h h' = refl
differ_digits zero (suc zero) h h' = refl
differ_digits (suc zero) zero h h' = refl
differ_digits (suc zero) (suc zero) h h' = refl
differ_digits (suc (suc a)) b h h' = absurd (omega arith)
differ_digits a (suc (suc b)) h h' = absurd (omega arith)

pub bit_xor_step : (a b : ℕ) → bit_xor a b ≡ bit_xor (a / 2) (b / 2) * 2 + (a % 2 + b % 2) % 2
bit_xor_step a b =
    omega (arith, bit_xor_digits a b, differ_digits (a % 2) (b % 2) (omega arith) (omega arith))
