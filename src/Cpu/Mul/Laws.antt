-- ===== src/Cpu/Mul/Laws.antt =====
-- The multiplications and divisions as arithmetic.
use native.Mathlib.Nat.{div-add-mod}
use native.Mathlib.Decide.{ℕ_discrete}
use emuriscv.Base.{ℕ, suc, ◌+◌, ◌-◌, ◌*◌, ◌%◌, ◌^◌, ◌≤◌, ◌<◌, ◌≡◌, refl, arith}
use emuriscv.Base.{ltb, IsWord, Bool-cases, inl, inr, ◌⊎◌, ◌≢◌, ==_ne, ltb→lt}
use emuriscv.Base.{pos, negsuc, to_signed, of_signed, sub_ℕ}
use emuriscv.Cpu.Mul.{mul32, mulhu32, divu32, remu32}
use emuriscv.Cpu.Mul.Products.{neg_mul_neg, neg_mul}

-- A word is its own value below the sign bit, and 2 ^ 32 more than its value above it.
pub sign_cases :
    (a : ℕ)
    → IsWord a
    → ((to_signed a ≡ pos a) × (a < 2 ^ 31))
      ⊎ ((n : ℕ) × (to_signed a ≡ negsuc n) × (a + suc n ≡ 2 ^ 32) × (2 ^ 31 ≤ a))
sign_cases a h = elim (Bool-cases (ltb a (2 ^ 31))) [
  | inl low ↦ inl (rw low refl, ltb→lt a (2 ^ 31) low)
  | inr high ↦ inr (2 ^ 32 - 1 - a, rw high refl, omega arith, ground arith)
]

of_signed_neg : (p : ℕ) → (of_signed (sub_ℕ 0 p) + p) % 2 ^ 32 ≡ 0
of_signed_neg p = ground arith

-- The low word of a product is the same for signed and unsigned factors.
pub mul32_lem : (a b : ℕ) → IsWord a → IsWord b → mul32 a b ≡ a * b % 2 ^ 32
unfolding mul32
mul32_lem a b ha hb = elim (sign_cases a ha) [
  | inl (ea, la) ↦ elim (sign_cases b hb) [
    | inl (eb, lb) ↦ rw (ea, eb) (ground arith)
    | inr (n, eb, sb, lb) ↦ rw (ea, eb) (ground (arith, neg_mul b a (suc n)))
  ]
  | inr (m, ea, sa, la) ↦ elim (sign_cases b hb) [
    | inl (eb, lb) ↦ rw (ea, eb) (ground (arith, neg_mul a b (suc m)))
    | inr (n, eb, sb, lb) ↦ rw (ea, eb) (ground (arith, neg_mul_neg a b (suc m) (suc n)))
  ]
]

product-lt : (a b : ℕ) → IsWord a → IsWord b → a * b < 2 ^ 64
product-lt a b ha hb = grind arith

-- For every two words, `mulhu` and `mul` give the two halves of the unsigned product.
pub mulhu32-mul32 : (a b : ℕ) → IsWord a → IsWord b → mulhu32 a b * 2 ^ 32 + mul32 a b ≡ a * b
unfolding mulhu32
mulhu32-mul32 a b ha hb = omega (arith, mul32_lem a b ha hb, product-lt a b ha hb)

-- `divu` and `remu` by a divisor that is not zero are the quotient and the remainder; by zero they
-- are all ones and the dividend.
pub divu32-remu32 :
    (a b : ℕ)
    → IsWord a
    → IsWord b
    → ((b ≢ 0) × (divu32 a b * b + remu32 a b ≡ a) × (remu32 a b < b))
      ⊎ ((b ≡ 0) × (divu32 a b ≡ 2 ^ 32 - 1) × (remu32 a b ≡ a))
unfolding divu32 remu32
divu32-remu32 a b ha hb = elim (ℕ_discrete b 0) [
  | yes e ↦ inr (e, rw e refl, rw e refl)
  | no ne ↦
      let test = ==_ne b 0 ne in
      inl (ne, rw test (ground (arith, div-add-mod a b)), rw test (omega arith))
]

-- For every two words, `mulhu` and `mul` give the two halves of the unsigned product. `divu` and
-- `remu` by a divisor that is not zero are the quotient and the remainder; by zero they are all ones
-- and the dividend.
pub unsigned_operations_lem :
    (a b : ℕ)
    → IsWord a
    → IsWord b
    → (mulhu32 a b * 2 ^ 32 + mul32 a b ≡ a * b)
      × (((b ≢ 0) × (divu32 a b * b + remu32 a b ≡ a) × (remu32 a b < b))
          ⊎ ((b ≡ 0) × (divu32 a b ≡ 2 ^ 32 - 1) × (remu32 a b ≡ a)))
unsigned_operations_lem a b ha hb = (mulhu32-mul32 a b ha hb, divu32-remu32 a b ha hb)
