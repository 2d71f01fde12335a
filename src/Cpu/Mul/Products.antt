-- ===== src/Cpu/Mul/Products.antt =====
-- Products modulo 2 ^ 32 of numbers and of their negations.
use emuriscv.Base.{ℕ, ◌+◌, ◌*◌, ◌%◌, ◌^◌, ◌≡◌, ap, arith}

-- (-q) * (-n) is q * n.
pub neg_mul_neg : (x y q n : ℕ) → x + q ≡ 2 ^ 32 → y + n ≡ 2 ^ 32 → x * y % 2 ^ 32 ≡ q * n % 2 ^ 32
neg_mul_neg x y q n hx hy =
    omega (arith, ap (λ (t : ℕ). t * y) hx, ap (λ (t : ℕ). q * t) hy, ap (λ (t : ℕ). t * q) hx)

-- (-q) * y is -(q * y).
pub neg_mul : (x y q : ℕ) → x + q ≡ 2 ^ 32 → (x * y + q * y) % 2 ^ 32 ≡ 0
neg_mul x y q hx = omega (arith, ap (λ (t : ℕ). t * y) hx)
