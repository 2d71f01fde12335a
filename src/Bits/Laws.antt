-- ===== src/Bits/Laws.antt =====
-- The laws of `&` and `|` that the components use.
use native.Mathlib.Nat.{pow-suc, one-le-pow}
use emuriscv.Base.{ℕ, zero, suc, ◌+◌, ◌-◌, ◌*◌, ◌/◌, ◌%◌, ◌^◌, ◌<◌, bit_and, bit_or}
use emuriscv.Base.{◌≡◌, ap, arith}
use emuriscv.Bits.Step.{bit_and_step}
use emuriscv.Bits.Fields.{bit_and-fields, bit_or-fields}
use emuriscv.Bits.Digits.{digit, digits_ext, digit_laws, digit-zero}

pub bit_and_comm : (a b : ℕ) → bit_and a b ≡ bit_and b a
bit_and_comm a b = digits_ext _ _ λ i. omega digit_laws

pub bit_and_assoc : (a b c : ℕ) → bit_and (bit_and a b) c ≡ bit_and a (bit_and b c)
bit_and_assoc a b c = digits_ext _ _ λ i. omega digit_laws

pub bit_and_self : (a : ℕ) → bit_and a a ≡ a
bit_and_self a = digits_ext _ _ λ i. omega digit_laws

pub bit_and-zero : (a : ℕ) → bit_and a 0 ≡ 0
bit_and-zero a = digits_ext _ _ λ i. omega (digit_laws, digit-zero i)

pub bit_or-zero : (a : ℕ) → bit_or a 0 ≡ a
bit_or-zero a = digits_ext _ _ λ i. omega (digit_laws, digit-zero i)

pub zero-bit_or : (a : ℕ) → bit_or 0 a ≡ a
zero-bit_or a = digits_ext _ _ λ i. omega (digit_laws, digit-zero i)

-- What `|` puts into a field that was cleared is what `&` reads from it.
pub bit_and-bit_or-clear :
    (r x m n : ℕ) → bit_and n m ≡ 0 → bit_and (bit_or (bit_and r n) (bit_and x m)) m ≡ bit_and x m
bit_and-bit_or-clear r x m n h = digits_ext _ _ λ i. omega (digit_laws, digit-zero i, ap_digit i)
  where
    ap_digit : (i : ℕ) → digit (bit_and n m) i ≡ digit 0 i
    ap_digit i = λ j. digit (h j) i

-- A field that the write does not touch keeps its bits.
pub bit_and-bit_or-other :
    (r x m n k : ℕ)
    → bit_and n k ≡ k
    → bit_and m k ≡ 0
    → bit_and (bit_or (bit_and r n) (bit_and x m)) k ≡ bit_and r k
bit_and-bit_or-other r x m n k keeps clears =
    digits_ext _ _ λ i. omega (digit_laws, digit-zero i, keep_digit i, clear_digit i)
  where
    keep_digit : (i : ℕ) → digit (bit_and n k) i ≡ digit k i
    keep_digit i = λ j. digit (keeps j) i

    clear_digit : (i : ℕ) → digit (bit_and m k) i ≡ digit 0 i
    clear_digit i = λ j. digit (clears j) i

pub bit_and-ones : (k r : ℕ) → r < 2 ^ k → bit_and r (2 ^ k - 1) ≡ r
bit_and-ones zero r h = omega (arith, bit_and_step r 0, bit_and-zero (r / 2))
bit_and-ones (suc k) r h =
    let e : (2 ^ suc k - 1) / 2 ≡ 2 ^ k - 1 = omega (arith, pow-suc 2 k, one-le-pow k 2) in
    let ih = bit_and-ones k (r / 2) (omega (arith, pow-suc 2 k)) in
    ground (arith, e, ih, pow-suc 2 k, one-le-pow k 2, bit_and_step r (2 ^ suc k - 1))

-- A mask of `k` low bits is the remainder by `2 ^ k`.
pub bit_and_mask : (k a : ℕ) → bit_and a (2 ^ k - 1) ≡ a % 2 ^ k
bit_and_mask k a = ground (
  arith,
  one-le-pow k 2,
  bit_and-zero (a / 2 ^ k),
  bit_and-fields k (a / 2 ^ k) 0 (a % 2 ^ k) (2 ^ k - 1) (omega (arith, one-le-pow k 2))
      (omega (arith, one-le-pow k 2)),
  bit_and-ones k (a % 2 ^ k) (omega (arith, one-le-pow k 2)),
)

-- `(q << k) | r` is a sum where `r` fits `k` bits.
pub bit_or-shifted : (k q r : ℕ) → r < 2 ^ k → bit_or (q * 2 ^ k) r ≡ q * 2 ^ k + r
bit_or-shifted k q r h = ground (
  arith,
  one-le-pow k 2,
  bit_or-fields k q 0 0 r (omega (arith, one-le-pow k 2)) h,
  bit_or-zero q,
  zero-bit_or r,
)

pub bit_or_comm : (a b : ℕ) → bit_or a b ≡ bit_or b a
bit_or_comm a b = digits_ext _ _ λ i. omega digit_laws

-- The mask of `n` bits above `k` low bits keeps a number's high part.
pub bit_and-high :
    (k n a : ℕ) → a < 2 ^ n * 2 ^ k → bit_and a ((2 ^ n - 1) * 2 ^ k) ≡ a / 2 ^ k * 2 ^ k
bit_and-high k n a h = ground (
  arith,
  one-le-pow k 2,
  bit_and-zero (a % 2 ^ k),
  bit_and-fields k (a / 2 ^ k) (2 ^ n - 1) (a % 2 ^ k) 0 (omega (arith, one-le-pow k 2))
      (omega (arith, one-le-pow k 2)),
  bit_and-ones n (a / 2 ^ k) (grind (arith, one-le-pow k 2)),
)

-- Bits that are set already.
pub bit_or-absorbs : (a b : ℕ) → bit_and a b ≡ b → bit_or a b ≡ a
bit_or-absorbs a b h = digits_ext _ _ (λ i. omega (digit_laws, ap (λ n. digit n i) h))
