-- ===== src/Disassembler.antt =====
-- `disassemble_op` of disassembler/disassembler.c: the chain of tests and the line that each one
-- prints. The masks of disassembler/encoding.h are those of opcodes.h, number by number.
pub mod Print
pub mod Alu
pub mod Flow
pub mod Extensions
pub mod Laws
use emuriscv.Base.{ℕ, List, [], ◌∷◌, none, some}
use emuriscv.Cpu.Opcode.{Opcode}
use emuriscv.Cpu.Dispatch.{first_match}
use Print.{Line, line, number}
use Alu.{
  print_add, print_addi, print_and, print_andi, print_auipc, print_lui, print_or, print_ori,
  print_sll, print_slli, print_slt, print_sltu, print_slti, print_sltiu, print_sra, print_srai,
  print_srl, print_srli, print_sub, print_xor, print_xori,
}
use Flow.{
  print_beq, print_bge, print_bgeu, print_blt, print_bltu, print_bne, print_fence, print_fencei,
  print_jal, print_jalr, print_mret, print_sret, print_uret, print_sfence_vma, print_wfi,
  print_ebreak, print_ecall,
}
use Extensions.{
  print_lb, print_lbu, print_lh, print_lhu, print_lw, print_sb, print_sh, print_sw, print_mul,
  print_mulh, print_mulhu, print_mulhsu, print_rem, print_remu, print_op_div, print_divu,
  print_csrrs, print_csrrw, print_csrrc, print_csrrwi, print_csrrsi, print_csrrci, print_amoadd_w,
  print_amoand_w, print_amoor_w, print_amoxor_w, print_amoswap_w, print_lr, print_sc,
}

-- The tests in their order.
unfoldable pub disassembler_chain : List Opcode
disassembler_chain =
    Opcode.add ∷ Opcode.addi ∷ Opcode.and ∷ Opcode.andi ∷ Opcode.auipc ∷ Opcode.beq ∷ Opcode.bge
    ∷ Opcode.bgeu ∷ Opcode.blt ∷ Opcode.bltu ∷ Opcode.bne ∷ Opcode.ebreak ∷ Opcode.ecall
    ∷ Opcode.fence ∷ Opcode.fence_i ∷ Opcode.jal ∷ Opcode.jalr ∷ Opcode.lb ∷ Opcode.lbu ∷ Opcode.lh
    ∷ Opcode.lhu ∷ Opcode.lui ∷ Opcode.lw ∷ Opcode.or ∷ Opcode.ori ∷ Opcode.sb ∷ Opcode.sh
    ∷ Opcode.sll ∷ Opcode.slli ∷ Opcode.slt ∷ Opcode.slti ∷ Opcode.sltiu ∷ Opcode.sltu ∷ Opcode.sra
    ∷ Opcode.srai ∷ Opcode.srl ∷ Opcode.srli ∷ Opcode.sub ∷ Opcode.sw ∷ Opcode.xor ∷ Opcode.xori
    ∷ Opcode.wfi ∷ Opcode.mret ∷ Opcode.sret ∷ Opcode.uret ∷ Opcode.csrrs ∷ Opcode.csrrw
    ∷ Opcode.csrrc ∷ Opcode.csrrsi ∷ Opcode.csrrwi ∷ Opcode.csrrci ∷ Opcode.amoadd_w
    ∷ Opcode.amoor_w ∷ Opcode.amoand_w ∷ Opcode.amoxor_w ∷ Opcode.amoswap_w ∷ Opcode.lr_w
    ∷ Opcode.sc_w ∷ Opcode.sfence_vma ∷ Opcode.mul ∷ Opcode.mulh ∷ Opcode.mulhsu ∷ Opcode.mulhu
    ∷ Opcode.div ∷ Opcode.divu ∷ Opcode.rem ∷ Opcode.remu ∷ []

-- The handler of each test.
unfoldable pub print_op : Opcode → ℕ → ℕ → Line
print_op Opcode.add pc w = print_add w
print_op Opcode.addi pc w = print_addi w
print_op Opcode.and pc w = print_and w
print_op Opcode.andi pc w = print_andi w
print_op Opcode.auipc pc w = print_auipc w
print_op Opcode.beq pc w = print_beq pc w
print_op Opcode.bge pc w = print_bge pc w
print_op Opcode.bgeu pc w = print_bgeu pc w
print_op Opcode.blt pc w = print_blt pc w
print_op Opcode.bltu pc w = print_bltu pc w
print_op Opcode.bne pc w = print_bne pc w
print_op Opcode.ebreak pc w = print_ebreak w
print_op Opcode.ecall pc w = print_ecall w
print_op Opcode.fence pc w = print_fence w
print_op Opcode.fence_i pc w = print_fencei w
print_op Opcode.jal pc w = print_jal pc w
print_op Opcode.jalr pc w = print_jalr w
print_op Opcode.lb pc w = print_lb w
print_op Opcode.lbu pc w = print_lbu w
print_op Opcode.lh pc w = print_lh w
print_op Opcode.lhu pc w = print_lhu w
print_op Opcode.lui pc w = print_lui w
print_op Opcode.lw pc w = print_lw w
print_op Opcode.or pc w = print_or w
print_op Opcode.ori pc w = print_ori w
print_op Opcode.sb pc w = print_sb w
print_op Opcode.sh pc w = print_sh w
print_op Opcode.sll pc w = print_sll w
print_op Opcode.slli pc w = print_slli w
print_op Opcode.slt pc w = print_slt w
print_op Opcode.slti pc w = print_slti w
print_op Opcode.sltiu pc w = print_sltiu w
print_op Opcode.sltu pc w = print_sltu w
print_op Opcode.sra pc w = print_sra w
print_op Opcode.srai pc w = print_srai w
print_op Opcode.srl pc w = print_srl w
print_op Opcode.srli pc w = print_srli w
print_op Opcode.sub pc w = print_sub w
print_op Opcode.sw pc w = print_sw w
print_op Opcode.xor pc w = print_xor w
print_op Opcode.xori pc w = print_xori w
print_op Opcode.wfi pc w = print_wfi w
print_op Opcode.mret pc w = print_mret w
print_op Opcode.sret pc w = print_sret w
print_op Opcode.uret pc w = print_uret w
print_op Opcode.csrrs pc w = print_csrrs w
print_op Opcode.csrrw pc w = print_csrrw w
print_op Opcode.csrrc pc w = print_csrrc w
print_op Opcode.csrrsi pc w = print_csrrsi w
print_op Opcode.csrrwi pc w = print_csrrwi w
print_op Opcode.csrrci pc w = print_csrrci w
print_op Opcode.amoadd_w pc w = print_amoadd_w w
print_op Opcode.amoor_w pc w = print_amoor_w w
print_op Opcode.amoand_w pc w = print_amoand_w w
print_op Opcode.amoxor_w pc w = print_amoxor_w w
print_op Opcode.amoswap_w pc w = print_amoswap_w w
print_op Opcode.lr_w pc w = print_lr w
print_op Opcode.sc_w pc w = print_sc w
print_op Opcode.sfence_vma pc w = print_sfence_vma w
print_op Opcode.mul pc w = print_mul w
print_op Opcode.mulh pc w = print_mulh w
print_op Opcode.mulhsu pc w = print_mulhsu w
print_op Opcode.mulhu pc w = print_mulhu w
print_op Opcode.div pc w = print_op_div w
print_op Opcode.divu pc w = print_divu w
print_op Opcode.rem pc w = print_rem w
print_op Opcode.remu pc w = print_remu w

-- `offset` is the address that the word is shown for.
unfoldable pub disassemble_op : ℕ → ℕ → Line
disassemble_op instruction offset = elim (first_match instruction disassembler_chain) [
  | none ↦ line "Unknown instruction: %8X \n" (number instruction ∷ [])
  | some op ↦ print_op op offset instruction
]
