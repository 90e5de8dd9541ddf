-- ===== src/Common/Digits.antt =====
-- The lowest binary digit of `&` and `|`, from the recursion on digits that the native
-- operations stand for.
use Prim.Native.Nat.{
  ℕ, zero, suc, ◌+◌, ◌*◌, ◌/◌, ◌%◌, ◌≤◌, min, max, bit_and, bit_or, digits, bitwise,
  bit_and-bitwise, bit_or-bitwise,
}
use mathlib.Core.Path.{◌≡◌, refl}
use native.Mathlib.Nat.{le_refl}
use native.Mathlib.Omega.{arith}

module _ (z : ℕ → ℕ) (f : ℕ → ℕ → ℕ) where
  -- Any two amounts of fuel that reach the first argument agree.
  enough_digits : (k m a b : ℕ) → a ≤ k → a ≤ m → digits z f k a b ≡ digits z f m a b
  enough_digits zero zero a b hk hm = refl
  enough_digits zero (suc m) zero b hk hm = refl
  enough_digits zero (suc m) (suc a) b hk hm = absurd (omega arith)
  enough_digits (suc k) zero zero b hk hm = refl
  enough_digits (suc k) zero (suc a) b hk hm = absurd (omega arith)
  enough_digits (suc k) (suc m) zero b hk hm = refl
  enough_digits (suc k) (suc m) (suc a) b hk hm =
      rw (enough_digits k m (suc a / 2) (b / 2) (omega arith) (omega arith))

  digit_of_suc :
      (a b : ℕ)
      → bitwise z f (suc a) b ≡ bitwise z f (suc a / 2) (b / 2) * 2 + f (suc a % 2) (b % 2)
  digit_of_suc a b =
      omega (arith, enough_digits a (suc a / 2) (suc a / 2) (b / 2) (omega arith) (le_refl _))

pub or_digit : (a b : ℕ) → bit_or a b ≡ bit_or (a / 2) (b / 2) * 2 + max (a % 2) (b % 2)
or_digit zero b = simp bit_or-bitwise (omega arith)
or_digit (suc a) b = simp bit_or-bitwise (digit_of_suc (λ y. y) max a b)

pub and_digit : (a b : ℕ) → bit_and a b ≡ bit_and (a / 2) (b / 2) * 2 + min (a % 2) (b % 2)
and_digit zero b = simp bit_and-bitwise (omega arith)
and_digit (suc a) b = simp bit_and-bitwise (digit_of_suc (λ y. 0) min a b)
