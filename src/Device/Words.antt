-- ===== src/Device/Words.antt =====
-- The writes of one word of a 64-bit device register.
use emuriscv.Base.{ℕ, ◌+◌, ◌*◌, ◌%◌, ◌^◌, ◌≡◌, arith, bit_and, bit_or}
use emuriscv.Bits.{bit_and-zero, zero-bit_or, bit_and_mask, bit_or_comm, bit_or-shifted}

-- With a mask of 0 the low word replaces the whole register.
pub low_word : (t v : ℕ) → bit_or (bit_and t 0) v ≡ v
low_word t v = rw (bit_and-zero t) (zero-bit_or v)

pub high_word : (t v : ℕ) → bit_or (bit_and t 0xffffffff) (v * 2 ^ 32) ≡ v * 2 ^ 32 + t % 2 ^ 32
high_word t v =
    rw (bit_and_mask 32 t, bit_or_comm (t % 2 ^ 32) (v * 2 ^ 32))
      (bit_or-shifted 32 v (t % 2 ^ 32) (omega arith))
