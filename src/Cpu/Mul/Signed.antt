-- ===== src/Cpu/Mul/Signed.antt =====
-- Signed division: the quotient and the remainder give the dividend back.
use native.Mathlib.Nat.{div-add-mod, add-zero, zero-add}
use native.Mathlib.Decide.{ℕ_discrete}
use emuriscv.Base.{ℕ, suc, ◌+◌, ◌*◌, ◌/◌, ◌%◌, ◌^◌, ◌≤◌, ◌<◌, ◌≡◌, ◌≢◌, refl, ap, arith}
use emuriscv.Base.{◌==◌, ◌&&◌, add32, IsWord, Bool-cases, inl, inr, ◌⊎◌, ==_ne, true}
use emuriscv.Base.{ℤ, pos, negsuc, to_signed, of_signed, div_ℤ, rem_ℤ, sub_ℕ, &&-eq-true, ==_iff}
use emuriscv.Cpu.Mul.{mul32, div32, rem32, int_min, minus_one}
use emuriscv.Cpu.Mul.Products.{neg_mul_neg, neg_mul}
use emuriscv.Cpu.Mul.Laws.{sign_cases, mul32_lem}

-- The pattern of -q.
minus : ℕ → ℕ
minus q = of_signed (sub_ℕ 0 q)

minus_cases : (q : ℕ) → q ≤ 2 ^ 31 → ((q ≡ 0) × (minus q ≡ 0)) ⊎ (minus q + q ≡ 2 ^ 32)
unfolding minus
minus_cases q h = elim (ℕ_discrete q 0) [ yes e ↦ inl (e, rw e refl) | no ne ↦ inr (ground arith) ]

minus_mul : (q b : ℕ) → q ≤ 2 ^ 31 → (minus q * b + q * b) % 2 ^ 32 ≡ 0
minus_mul q b h = elim (minus_cases q h) [
  | inl (e, z) ↦ rw (z, e) (omega arith)
  | inr s ↦ neg_mul (minus q) b q s
]

minus_mul_neg : (q b n : ℕ) → q ≤ 2 ^ 31 → b + n ≡ 2 ^ 32 → minus q * b % 2 ^ 32 ≡ q * n % 2 ^ 32
minus_mul_neg q b n h s = elim (minus_cases q h) [
  | inl (e, z) ↦ rw (z, e) (omega arith)
  | inr t ↦ neg_mul_neg (minus q) b q n t s
]

div-le_self : (a b : ℕ) → a / b ≤ a
div-le_self a b = omega arith

case_pp :
    (a b q r : ℕ)
    → a < 2 ^ 31
    → q ≤ a
    → r ≤ a
    → q * b + r ≡ a
    → (q % 2 ^ 32 * b + r % 2 ^ 32) % 2 ^ 32 ≡ a
case_pp a b q r h hq hr e =
    let eq : q % 2 ^ 32 ≡ q = omega arith in
    let er : r % 2 ^ 32 ≡ r = omega arith in rw (eq, er) (omega arith)

case_pn :
    (a b n q r : ℕ)
    → a < 2 ^ 31
    → q ≤ a
    → r ≤ a
    → b + n ≡ 2 ^ 32
    → q * n + r ≡ a
    → (minus q * b + r % 2 ^ 32) % 2 ^ 32 ≡ a
case_pn a b n q r h hq hr s e = omega (arith, minus_mul_neg q b n (omega arith) s)

case_np :
    (a m b q r : ℕ)
    → a + m ≡ 2 ^ 32
    → 0 < m
    → m ≤ 2 ^ 31
    → q ≤ m
    → r ≤ m
    → q * b + r ≡ m
    → (minus q * b + minus r) % 2 ^ 32 ≡ a
case_np a m b q r s pos' h hq hr e = elim (minus_cases r (omega arith)) [
  | inl (z, zz) ↦ omega (arith, minus_mul q b (omega arith))
  | inr t ↦ omega (arith, minus_mul q b (omega arith))
]

case_nn :
    (a m b n q r : ℕ)
    → a + m ≡ 2 ^ 32
    → 0 < m
    → m ≤ 2 ^ 31
    → b + n ≡ 2 ^ 32
    → q ≤ 2 ^ 31
    → r ≤ m
    → q * n + r ≡ m
    → (q % 2 ^ 32 * b + minus r) % 2 ^ 32 ≡ a
case_nn a m b n q r s pos' h t hq hr e =
    let eq : q % 2 ^ 32 ≡ q = omega arith in
    rw eq (elim (minus_cases r (omega arith)) [
      | inl (z, zz) ↦ omega (arith, ap (λ (k : ℕ). q * k) t)
      | inr u ↦ omega (arith, ap (λ (k : ℕ). q * k) t)
    ])

div-mod-le : (a b : ℕ) → b ≢ 0 → (a / b ≤ a) × (a % b ≤ a) × (a / b * b + a % b ≡ a)
div-mod-le a b ne = (omega arith, omega arith, ground (arith, div-add-mod a b))

-- Truncating division gives the dividend back, modulo 2 ^ 32.
quotient_remainder :
    (a b : ℕ)
    → IsWord a
    → IsWord b
    → b ≢ 0
    → (of_signed (div_ℤ (to_signed a) (to_signed b)) * b
          + of_signed (rem_ℤ (to_signed a) (to_signed b)))
        % 2 ^ 32
      ≡ a
unfolding minus
quotient_remainder a b ha hb ne = elim (sign_cases a ha) [
  | inl (ea, la) ↦ elim (sign_cases b hb) [
    | inl (eb, lb) ↦
        let (q, r, s) = div-mod-le a b ne in
        rw (ea, eb, add-zero b) (case_pp a b (a / b) (a % b) la q r s)
    | inr (n, eb, sb, lb) ↦
        let (q, r, s) = div-mod-le a (suc n) (omega arith) in
        rw (ea, eb, zero-add (suc n)) (case_pn a b (suc n) (a / suc n) (a % suc n) la q r sb s)
  ]
  | inr (m, ea, sa, la) ↦ elim (sign_cases b hb) [
    | inl (eb, lb) ↦
        let (q, r, s) = div-mod-le (suc m) b ne in
        rw (ea, eb, add-zero b)
          (case_np a (suc m) b (suc m / b) (suc m % b) sa (omega arith) (omega arith) q r s)
    | inr (n, eb, sb, lb) ↦
        let (q, r, s) = div-mod-le (suc m) (suc n) (omega arith) in
        rw (ea, eb, zero-add (suc n))
          (case_nn a (suc m) b (suc n) (suc m / suc n) (suc m % suc n) sa (omega arith)
            (omega arith) sb (omega arith) r s)
  ]
]

of_signed-IsWord : (z : ℤ) → IsWord (of_signed z)
of_signed-IsWord (pos n) = omega arith
of_signed-IsWord (negsuc n) = omega arith

pub div32-IsWord : (a b : ℕ) → IsWord a → IsWord (div32 a b)
unfolding div32
div32-IsWord a b ha = ground (arith, of_signed-IsWord (div_ℤ (to_signed a) (to_signed b)))

overflow_test : (a b : ℕ) → a == int_min && b == minus_one ≡ true → (a ≡ int_min) × (b ≡ minus_one)
overflow_test a b h =
    let (ea, eb) = &&-eq-true (a == int_min) (b == minus_one) h in
    ((==_iff a int_min).0 ea, (==_iff b minus_one).0 eb)

-- For every two words, division by zero and the overflowing division included, the quotient times
-- the divisor plus the remainder is the dividend, in the machine's arithmetic.
pub div32-rem32 : (a b : ℕ) → IsWord a → IsWord b → add32 (mul32 (div32 a b) b) (rem32 a b) ≡ a
unfolding div32 rem32
div32-rem32 a b ha hb =
    rw (mul32_lem (div32 a b) b (div32-IsWord a b ha) hb) (elim (ℕ_discrete b 0) [
      | yes e ↦ rw e (omega arith)
      | no ne ↦ elim (Bool-cases (a == int_min && b == minus_one)) [
        | inl over ↦ let (ea, eb) = overflow_test a b over in rw (ea, eb) refl
        | inr fine ↦ rw (==_ne b 0 ne, fine) (omega (arith, quotient_remainder a b ha hb ne))
      ]
    ])
