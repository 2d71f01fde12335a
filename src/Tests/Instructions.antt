-- ===== src/Tests/Instructions.antt =====
-- Decoding, dispatch and the arithmetic instructions.
use emuriscv.Base.{inl, ℕ, ◌+◌, ◌*◌, ◌-◌, ◌^◌, ◌≡◌, ◌≢◌, ◌<◌, ◌⊎◌, inr, refl, arith, add32}
use emuriscv.Decode.{get_i_imm, get_s_imm, get_b_imm, get_j_imm, get_rd, get_rs1, get_rs2}
use emuriscv.Decode.Encode.{Operands, IsOperands, i_type, s_type, b_type, j_type}
use emuriscv.Decode.Immediates.{immediates_lem}
use emuriscv.Decode.Immediates.{immediates_lem}
use emuriscv.Cpu.Opcode.{Opcode, matches, mask, match_bits}
use emuriscv.Cpu.Dispatch.{dispatch, execute}
use emuriscv.Cpu.Dispatch.Unique.{dispatch-matches}
use emuriscv.Cpu.Mul.{mul32, mulhu32, div32, rem32, divu32, remu32}
use emuriscv.Cpu.Mul.Laws.{unsigned_operations_lem}
use emuriscv.Cpu.Mul.Signed.{div32-rem32}
use emuriscv.Tests.Machines.{quiet, zeros, machine}

abbrev operands : Operands
operands = record { opcode = 0x63; rd = 5; funct3 = 0; rs1 = 6; rs2 = 7 }

operands-IsOperands : IsOperands operands
operands-IsOperands = record {
  opcode_fits = omega arith;
  rd_fits = omega arith;
  funct3_fits = omega arith;
  rs1_fits = omega arith;
  rs2_fits = omega arith;
}

-- -8
abbrev minus_8 : ℕ
minus_8 = 2 ^ 32 - 8

immediates_lem_example :
    ((get_i_imm (i_type operands minus_8) ≡ minus_8)
      × (get_rd (i_type operands minus_8) ≡ 5)
      × (get_rs1 (i_type operands minus_8) ≡ 6))
    × ((get_s_imm (s_type operands minus_8) ≡ minus_8)
        × (get_rs1 (s_type operands minus_8) ≡ 6)
        × (get_rs2 (s_type operands minus_8) ≡ 7))
    × ((get_b_imm (b_type operands 16) ≡ 16)
        × (get_rs1 (b_type operands 16) ≡ 6)
        × (get_rs2 (b_type operands 16) ≡ 7))
    × ((get_j_imm (j_type operands minus_8) ≡ minus_8) × (get_rd (j_type operands minus_8) ≡ 5))
immediates_lem_example =
    immediates_lem operands minus_8 minus_8 16 minus_8 operands-IsOperands
      (inr (omega arith, omega arith)) (inr (omega arith, omega arith)) (inl (omega arith))
      (omega arith) (inr (omega arith, omega arith)) (omega arith)

-- beq x6, x7
dispatch-matches_example :
    dispatch quiet (machine zeros) 0x730863 ≡ execute quiet Opcode.beq (machine zeros) 0x730863
unfolding matches mask match_bits
dispatch-matches_example = dispatch-matches quiet Opcode.beq (machine zeros) 0x730863 refl

unsigned_operations_lem_example :
    (mulhu32 0xffffffff 7 * 2 ^ 32 + mul32 0xffffffff 7 ≡ 0xffffffff * 7)
    × (((◌≢◌ {A = ℕ} 7 0)
          × (divu32 0xffffffff 7 * 7 + remu32 0xffffffff 7 ≡ 0xffffffff)
          × (remu32 0xffffffff 7 < 7))
        ⊎ ((◌≡◌ {A = ℕ} 7 0)
            × (divu32 0xffffffff 7 ≡ 2 ^ 32 - 1)
            × (remu32 0xffffffff 7 ≡ 0xffffffff)))
unsigned_operations_lem_example = unsigned_operations_lem 0xffffffff 7 (omega arith) (omega arith)

div32-rem32_example : add32 (mul32 (div32 0xffffff9c 7) 7) (rem32 0xffffff9c 7) ≡ 0xffffff9c
div32-rem32_example = div32-rem32 0xffffff9c 7 (omega arith) (omega arith)
