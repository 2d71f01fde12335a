-- ===== src/Fdt/Swap.antt =====
-- `cpu_to_be32`: what a swapped word leaves in memory.
use emuriscv.Base.{
  ℕ, ◌+◌, ◌*◌, ◌/◌, ◌%◌, ◌^◌, ◌≡◌, refl, arith, bit_and, shr, shl32, [], ◌∷◌, IsWord,
}
use emuriscv.Bits.{bit_and-fields, bit_and_mask, bit_and-zero}
use emuriscv.Memory.Ram.Bytes.{join_word, byte_3}
use emuriscv.Fdt.State.{bswap_32, cpu_to_be32, word_bytes}

mask_2 : (v : ℕ) → shr (bit_and v 0xff0000) 8 ≡ shl32 (v / 2 ^ 16 % 2 ^ 8) 8
mask_2 v = ground (
  arith,
  bit_and-fields 16 (v / 2 ^ 16) 0xff (v % 2 ^ 16) 0 (omega arith) (omega arith),
  bit_and_mask 8 (v / 2 ^ 16),
  bit_and-zero (v % 2 ^ 16),
)

mask_1 : (v : ℕ) → shl32 (bit_and v 0xff00) 8 ≡ shl32 (v / 2 ^ 8 % 2 ^ 8) 16
mask_1 v = ground (
  arith,
  bit_and-fields 8 (v / 2 ^ 8) 0xff (v % 2 ^ 8) 0 (omega arith) (omega arith),
  bit_and_mask 8 (v / 2 ^ 8),
  bit_and-zero (v % 2 ^ 8),
)

mask_0 : (v : ℕ) → bit_and v 0xff ≡ v % 2 ^ 8
mask_0 v = bit_and_mask 8 v

pub bswap_32_lem :
    (v : ℕ)
    → bswap_32 v
      ≡ v / 2 ^ 24 % 2 ^ 8
        + v / 2 ^ 16 % 2 ^ 8 * 2 ^ 8
        + v / 2 ^ 8 % 2 ^ 8 * 2 ^ 16
        + v % 2 ^ 8 * 2 ^ 24
unfolding bswap_32
bswap_32_lem v =
    rw (byte_3 v, mask_2 v, mask_1 v, mask_0 v)
      (join_word (v / 2 ^ 24 % 2 ^ 8) (v / 2 ^ 16 % 2 ^ 8) (v / 2 ^ 8 % 2 ^ 8) (v % 2 ^ 8)
        (omega arith) (omega arith) (omega arith) (omega arith))

-- Swapping the bytes of a word twice gives the word back, and every result is a word.
pub bswap_32-bswap_32 : (v : ℕ) → IsWord v → (bswap_32 (bswap_32 v) ≡ v) × IsWord (bswap_32 v)
bswap_32-bswap_32 v h =
    (omega (arith, bswap_32_lem v, bswap_32_lem (bswap_32 v)), omega (arith, bswap_32_lem v))

-- The bytes of a swapped word, the high byte first.
pub be32_bytes :
    (v : ℕ)
    → word_bytes (cpu_to_be32 v)
      ≡ v / 2 ^ 24 % 2 ^ 8 ∷ v / 2 ^ 16 % 2 ^ 8 ∷ v / 2 ^ 8 % 2 ^ 8 ∷ v % 2 ^ 8 ∷ []
unfolding word_bytes cpu_to_be32
be32_bytes v =
    let e0 : bswap_32 v % 2 ^ 8 ≡ v / 2 ^ 24 % 2 ^ 8 = omega (arith, bswap_32_lem v) in
    let e1 : bswap_32 v / 2 ^ 8 % 2 ^ 8 ≡ v / 2 ^ 16 % 2 ^ 8 = omega (arith, bswap_32_lem v) in
    let e2 : bswap_32 v / 2 ^ 16 % 2 ^ 8 ≡ v / 2 ^ 8 % 2 ^ 8 = omega (arith, bswap_32_lem v) in
    let e3 : bswap_32 v / 2 ^ 24 % 2 ^ 8 ≡ v % 2 ^ 8 = omega (arith, bswap_32_lem v) in
    rw (e0, e1, e2, e3) refl
