-- ===== src/Boot/Load/Align.antt =====
-- Where the kernel is put.
use emuriscv.Base.{ℕ, ◌+◌, ◌*◌, ◌-◌, ◌/◌, ◌%◌, ◌^◌, ◌≤◌, ◌≡◌, arith, bit_and, ap, ◌∙◌}
use emuriscv.Bits.{bit_and_mask, bit_and-fields, bit_and-zero}
use emuriscv.Boot.{ram_size}
use emuriscv.Boot.Load.{aligned_base, kernel_align}

-- On a number of 32 bits.
bit_and-high :
    (n : ℕ) → n ≤ 2 ^ 31 → bit_and n (2 ^ 32 - kernel_align) ≡ n / kernel_align * kernel_align
bit_and-high n h =
    ap (λ m. bit_and m (2 ^ 32 - kernel_align)) (parts n)
    ∙ bit_and-fields 22 (n / 2 ^ 22) (2 ^ 10 - 1) (n % 2 ^ 22) 0 (omega arith) (omega arith)
    ∙ rw (bit_and_mask 10 (n / 2 ^ 22), bit_and-zero (n % 2 ^ 22)) (omega arith)
  where
    parts : (m : ℕ) → m ≡ m / 2 ^ 22 * 2 ^ 22 + m % 2 ^ 22
    parts m = omega arith

pub aligned_base_lem :
    (n : ℕ) → n ≤ ram_size → aligned_base n ≡ (n + (kernel_align - 1)) / kernel_align * kernel_align
unfolding aligned_base
aligned_base_lem n h =
    ap (λ m. bit_and m (2 ^ 32 - kernel_align)) (omega arith)
    ∙ bit_and-high (n + (kernel_align - 1)) (omega arith)
