-- ===== src/Decode.antt =====
-- decode.c, instruction.h and the field macros of cpu.h: the parts of an instruction word.
-- An immediate is the 32-bit pattern of the `int32_t` or `uint32_t` that the function returns.
use emuriscv.Base.{ℕ, ◌+◌, ◌-◌, ◌*◌, ◌/◌, ◌%◌, ◌^◌, bit_and, bit_or, ◌==◌, if◌then◌else◌}
use emuriscv.Base.{u32, shl32, shr, sign_extend}
pub mod Fields
pub mod Encode
pub mod Immediates

unfoldable pub bextr : ℕ → ℕ → ℕ → ℕ
bextr src start len = bit_and (shr src start) (2 ^ len - 1)

-- All bits set if bit 31 is.
pub imm_sign : ℕ → ℕ
imm_sign value = if bextr value 31 1 == 1 then 2 ^ 32 - 1 else 0

pub get_b_imm : ℕ → ℕ
get_b_imm value = u32 (
    bextr value 8 4 * 2 ^ 1
    + bextr value 25 6 * 2 ^ 5
    + bextr value 7 1 * 2 ^ 11
    + shl32 (imm_sign value) 12)

unfoldable pub get_i_imm_unsigned : ℕ → ℕ
get_i_imm_unsigned value = shr value 20

-- `val |= mask` where bit 31 of the instruction is set.
extend_if_negative : ℕ → ℕ → ℕ → ℕ
extend_if_negative value val mask = if bextr value 31 1 == 1 then bit_or val mask else val

unfoldable pub get_i_imm : ℕ → ℕ
unfolding extend_if_negative
get_i_imm value = extend_if_negative value (bextr value 20 12) 0xfffff000

pub get_s_imm : ℕ → ℕ
unfolding extend_if_negative
get_s_imm value = extend_if_negative value (bextr value 7 5 + bextr value 25 7 * 2 ^ 5) 0xfffff000

pub get_j_imm : ℕ → ℕ
unfolding extend_if_negative
get_j_imm value =
    extend_if_negative value
      (bextr value 21 10 * 2 ^ 1
        + bextr value 20 1 * 2 ^ 11
        + bextr value 12 8 * 2 ^ 12
        + bextr value 31 1 * 2 ^ 20)
      0xfff00000

-- GET_RD, GET_RS1, GET_RS2 and GET_CSR_IMM.
unfoldable pub get_rd : ℕ → ℕ
get_rd x = bit_and (shr x 7) 0x1f

unfoldable pub get_rs1 : ℕ → ℕ
get_rs1 x = bit_and (shr x 15) 0x1f

unfoldable pub get_rs2 : ℕ → ℕ
get_rs2 x = bit_and (shr x 20) 0x1f

pub get_csr_imm : ℕ → ℕ
get_csr_imm x = bit_and (shr x 15) 0x1f

-- The bit-fields of `InstructionI`, `InstructionIShift` and `InstructionU`. They are plain `int`
-- fields, so their highest bit is a sign.
pub i_imm : ℕ → ℕ
i_imm in' = sign_extend 12 (in' / 2 ^ 20 % 2 ^ 12)

pub i_shamt : ℕ → ℕ
i_shamt in' = sign_extend 5 (in' / 2 ^ 20 % 2 ^ 5)

unfoldable pub u_data : ℕ → ℕ
u_data in' = sign_extend 20 (in' / 2 ^ 12 % 2 ^ 20)
