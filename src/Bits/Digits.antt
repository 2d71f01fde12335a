-- ===== src/Bits/Digits.antt =====
-- Numbers as their binary digits: two numbers with the same digits are one, and `&` and `|` act
-- digit by digit.
use emuriscv.Base.{ℕ, zero, suc, ◌+◌, ◌*◌, ◌/◌, ◌%◌, ◌≤◌, ◌<◌, min, max, bit_and, bit_or}
use emuriscv.Base.{◌≡◌, refl, arith, ap}
use emuriscv.Bits.Step.{bit_and_step, bit_or_step}

pub digit : ℕ → ℕ → ℕ
digit a zero = a % 2
digit a (suc i) = digit (a / 2) i

pub digit-le : (a i : ℕ) → digit a i ≤ 1
unfolding digit
digit-le a zero = omega arith
digit-le a (suc i) = digit-le (a / 2) i

digits_ext_fuel : (n a b : ℕ) → a ≤ n → b ≤ n → ((i : ℕ) → digit a i ≡ digit b i) → a ≡ b
unfolding digit
digits_ext_fuel zero a b ha hb h = omega arith
digits_ext_fuel (suc n) a b ha hb h =
    omega
      (arith, h 0, digits_ext_fuel n (a / 2) (b / 2) (omega arith) (omega arith) (λ i. h (suc i)))

pub digits_ext : (a b : ℕ) → ((i : ℕ) → digit a i ≡ digit b i) → a ≡ b
digits_ext a b h = digits_ext_fuel (a + b) a b (omega arith) (omega arith) h

pub digit-bit_and : (a b i : ℕ) → digit (bit_and a b) i ≡ min (digit a i) (digit b i)
unfolding digit
digit-bit_and a b zero = omega (arith, bit_and_step a b)
digit-bit_and a b (suc i) =
    let e : bit_and a b / 2 ≡ bit_and (a / 2) (b / 2) = omega (arith, bit_and_step a b) in
    rw e (digit-bit_and (a / 2) (b / 2) i)

pub digit-bit_or : (a b i : ℕ) → digit (bit_or a b) i ≡ max (digit a i) (digit b i)
unfolding digit
digit-bit_or a b zero = omega (arith, bit_or_step a b)
digit-bit_or a b (suc i) =
    let e : bit_or a b / 2 ≡ bit_or (a / 2) (b / 2) = omega (arith, bit_or_step a b) in
    rw e (digit-bit_or (a / 2) (b / 2) i)

pub digit-zero : (i : ℕ) → digit 0 i ≡ 0
unfolding digit
digit-zero zero = refl
digit-zero (suc i) = digit-zero i

pub ruleset digit_laws = (arith, digit-bit_and, digit-bit_or, digit-le)
