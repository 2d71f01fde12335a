-- ===== src/Bits/Fields.antt =====
-- `&` and `|` of two numbers that are each a high part above `k` low bits.
use native.Mathlib.Nat.{pow-suc}
use emuriscv.Base.{ℕ, zero, suc, ◌+◌, ◌*◌, ◌/◌, ◌^◌, ◌<◌, bit_and, bit_or}
use emuriscv.Base.{◌≡◌, arith, ap}
use emuriscv.Bits.Step.{bit_and_step, bit_or_step}

double : (q k : ℕ) → q * 2 ^ suc k ≡ 2 * (q * 2 ^ k)
double q k = omega (arith, ap (λ (t : ℕ). q * t) (pow-suc 2 k))

pub bit_and-fields :
    (k p q r t : ℕ)
    → r < 2 ^ k
    → t < 2 ^ k
    → bit_and (p * 2 ^ k + r) (q * 2 ^ k + t) ≡ bit_and p q * 2 ^ k + bit_and r t
bit_and-fields zero p q r t hr ht =
    let er : r ≡ 0 = omega arith in
    let et : t ≡ 0 = omega arith in
    let ep : p * 2 ^ 0 + r ≡ p = omega arith in
    let eq : q * 2 ^ 0 + t ≡ q = omega arith in rw (ep, eq, er, et) (omega arith)
bit_and-fields (suc k) p q r t hr ht = ground (
  arith,
  double p k,
  double q k,
  double (bit_and p q) k,
  pow-suc 2 k,
  bit_and_step (p * 2 ^ suc k + r) (q * 2 ^ suc k + t),
  bit_and_step r t,
  bit_and-fields k p q (r / 2) (t / 2) (omega (arith, pow-suc 2 k)) (omega (arith, pow-suc 2 k)),
)

pub bit_or-fields :
    (k p q r t : ℕ)
    → r < 2 ^ k
    → t < 2 ^ k
    → bit_or (p * 2 ^ k + r) (q * 2 ^ k + t) ≡ bit_or p q * 2 ^ k + bit_or r t
bit_or-fields zero p q r t hr ht =
    let er : r ≡ 0 = omega arith in
    let et : t ≡ 0 = omega arith in
    let ep : p * 2 ^ 0 + r ≡ p = omega arith in
    let eq : q * 2 ^ 0 + t ≡ q = omega arith in rw (ep, eq, er, et) (omega arith)
bit_or-fields (suc k) p q r t hr ht = ground (
  arith,
  double p k,
  double q k,
  double (bit_or p q) k,
  pow-suc 2 k,
  bit_or_step (p * 2 ^ suc k + r) (q * 2 ^ suc k + t),
  bit_or_step r t,
  bit_or-fields k p q (r / 2) (t / 2) (omega (arith, pow-suc 2 k)) (omega (arith, pow-suc 2 k)),
)
