-- ===== src/Bits/Step.antt =====
-- The native bit operations, one binary digit at a time.
use Prim.Native.Nat.{
  digits, bitwise, bit_and-bitwise, bit_or-bitwise, bit_xor, bit_xor-bitwise, differ,
}
use native.Mathlib.Nat.{le_refl}
use emuriscv.Base.{ℕ, zero, suc, ◌+◌, ◌*◌, ◌/◌, ◌%◌, ◌≤◌, min, max, bit_and, bit_or}
use emuriscv.Base.{◌≡◌, refl, arith}

-- The recursion on digits that the operations stand for has the same value on any fuel that
-- suffices.
module _ (past : ℕ → ℕ) (digit : ℕ → ℕ → ℕ) where
  digits_enough : (a b n m : ℕ) → a ≤ m → a ≤ n → digits past digit m a b ≡ digits past digit n a b
  digits_enough (suc a) b zero m on_m on_n = absurd (omega arith)
  digits_enough (suc a) b (suc n) zero on_m on_n = absurd (omega arith)
  digits_enough (suc a) b (suc n) (suc m) on_m on_n =
      let rest = digits_enough (suc a / 2) (b / 2) n m (omega arith) (omega arith) in
      omega (arith, rest)
  digits_enough zero b zero zero on_m on_n = refl
  digits_enough zero b (suc n) zero on_m on_n = refl
  digits_enough zero b zero (suc m) on_m on_n = refl
  digits_enough zero b (suc n) (suc m) on_m on_n = refl

  lowest_digit :
      (a b : ℕ)
      → bitwise past digit (suc a) b
        ≡ digit (suc a % 2) (b % 2) + bitwise past digit (suc a / 2) (b / 2) * 2
  lowest_digit a b =
      let half = suc a / 2 in
      let same = digits_enough half (b / 2) half a (omega arith) (le_refl half) in
      omega (arith, same)

-- The digits of `x & y` are the lesser ones, those of `x | y` the greater ones.
pub bit_and_step : (x y : ℕ) → bit_and x y ≡ min (x % 2) (y % 2) + 2 * bit_and (x / 2) (y / 2)
bit_and_step (suc x) y = simp bit_and-bitwise (omega (arith, lowest_digit (λ past. 0) min x y))
bit_and_step zero y = simp bit_and-bitwise (omega arith)

pub bit_or_step : (x y : ℕ) → bit_or x y ≡ max (x % 2) (y % 2) + 2 * bit_or (x / 2) (y / 2)
bit_or_step (suc x) y = simp bit_or-bitwise (omega (arith, lowest_digit (λ past. past) max x y))
bit_or_step zero y = simp bit_or-bitwise (omega arith)

pub bit_xor_step : (x y : ℕ) → bit_xor x y ≡ differ (x % 2) (y % 2) + 2 * bit_xor (x / 2) (y / 2)
bit_xor_step (suc x) y =
    simp bit_xor-bitwise (omega (arith, lowest_digit (λ past. past) differ x y))
bit_xor_step zero y = simp bit_xor-bitwise (omega arith)
