-- ===== src/Memory/Ram/Bytes.antt =====
-- The four bytes that `write_common_ram` takes from a word, and the word that `read_common_ram`
-- puts together, as arithmetic.
use emuriscv.Base.{ℕ, ◌+◌, ◌*◌, ◌/◌, ◌%◌, ◌^◌, ◌<◌, ◌≡◌, arith, bit_and, bit_or, shr, shl32}
use emuriscv.Bits.{bit_and-fields, bit_and_mask, bit_and-zero, bit_or_comm, bit_or-shifted}

pub byte_1 : (v : ℕ) → shr (bit_and v 0xff00) 8 ≡ v / 2 ^ 8 % 2 ^ 8
byte_1 v = ground (
  arith,
  bit_and-fields 8 (v / 2 ^ 8) 0xff (v % 2 ^ 8) 0 (omega arith) (omega arith),
  bit_and_mask 8 (v / 2 ^ 8),
  bit_and-zero (v % 2 ^ 8),
)

pub byte_2 : (v : ℕ) → shr (bit_and v 0xff0000) 16 ≡ v / 2 ^ 16 % 2 ^ 8
byte_2 v = ground (
  arith,
  bit_and-fields 16 (v / 2 ^ 16) 0xff (v % 2 ^ 16) 0 (omega arith) (omega arith),
  bit_and_mask 8 (v / 2 ^ 16),
  bit_and-zero (v % 2 ^ 16),
)

pub byte_3 : (v : ℕ) → shr (bit_and v 0xff000000) 24 ≡ v / 2 ^ 24 % 2 ^ 8
byte_3 v = ground (
  arith,
  bit_and-fields 24 (v / 2 ^ 24) 0xff (v % 2 ^ 24) 0 (omega arith) (omega arith),
  bit_and_mask 8 (v / 2 ^ 24),
  bit_and-zero (v % 2 ^ 24),
)

pub join_half : (b0 b1 : ℕ) → b0 < 256 → b1 < 256 → bit_or b0 (shl32 b1 8) ≡ b0 + b1 * 2 ^ 8
join_half b0 b1 h0 h1 = ground (arith, bit_or_comm b0 (b1 * 2 ^ 8), bit_or-shifted 8 b1 b0 h0)

pub join_word :
    (b0 b1 b2 b3 : ℕ)
    → b0 < 256
    → b1 < 256
    → b2 < 256
    → b3 < 256
    → bit_or (bit_or (bit_or b0 (shl32 b1 8)) (shl32 b2 16)) (shl32 b3 24)
      ≡ b0 + b1 * 2 ^ 8 + b2 * 2 ^ 16 + b3 * 2 ^ 24
join_word b0 b1 b2 b3 h0 h1 h2 h3 =
    let low = b0 + b1 * 2 ^ 8 in
    let mid = low + b2 * 2 ^ 16 in
    ground (
      arith,
      join_half b0 b1 h0 h1,
      bit_or_comm low (b2 * 2 ^ 16),
      bit_or-shifted 16 b2 low (omega arith),
      bit_or_comm mid (b3 * 2 ^ 24),
      bit_or-shifted 24 b3 mid (omega arith),
    )
