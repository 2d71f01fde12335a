-- ===== src/Cpu/Dispatch.antt =====
-- The chain of tests in `emulate_op` and the handler that each one calls.
pub mod Position
pub mod Unique
use emuriscv.Base.{ℕ, List, [], ◌∷◌, if◌then◌else◌, Option, none, some}
use emuriscv.Base.{Outcome, ok, exit}
use emuriscv.Machine.{State, Environment}
use emuriscv.Cpu.Opcode.{Opcode, matches}
use emuriscv.Cpu.Alu
use emuriscv.Cpu.Branch
use emuriscv.Cpu.LoadStore
use emuriscv.Cpu.Mul
use emuriscv.Cpu.Atomic
use emuriscv.Cpu.Csr
use emuriscv.Cpu.Exception
use emuriscv.Cpu.Privileged

-- The tests in their order.
unfoldable pub chain : List Opcode
chain =
    Opcode.add ∷ Opcode.addi ∷ Opcode.and ∷ Opcode.andi ∷ Opcode.auipc ∷ Opcode.beq ∷ Opcode.bge
    ∷ Opcode.bgeu ∷ Opcode.blt ∷ Opcode.bltu ∷ Opcode.bne ∷ Opcode.ebreak ∷ Opcode.ecall
    ∷ Opcode.fence ∷ Opcode.fence_i ∷ Opcode.jal ∷ Opcode.jalr ∷ Opcode.lb ∷ Opcode.lbu ∷ Opcode.lh
    ∷ Opcode.lhu ∷ Opcode.lui ∷ Opcode.lw ∷ Opcode.or ∷ Opcode.ori ∷ Opcode.sb ∷ Opcode.sh
    ∷ Opcode.sll ∷ Opcode.slli ∷ Opcode.slt ∷ Opcode.slti ∷ Opcode.sltiu ∷ Opcode.sltu ∷ Opcode.sra
    ∷ Opcode.srai ∷ Opcode.srl ∷ Opcode.srli ∷ Opcode.sub ∷ Opcode.sw ∷ Opcode.xor ∷ Opcode.xori
    ∷ Opcode.wfi ∷ Opcode.mret ∷ Opcode.sret ∷ Opcode.uret ∷ Opcode.csrrs ∷ Opcode.csrrw
    ∷ Opcode.csrrc ∷ Opcode.csrrsi ∷ Opcode.csrrwi ∷ Opcode.csrrci ∷ Opcode.amoadd_w
    ∷ Opcode.amoor_w ∷ Opcode.amoand_w ∷ Opcode.amoxor_w ∷ Opcode.amoswap_w ∷ Opcode.lr_w
    ∷ Opcode.sc_w ∷ Opcode.sfence_vma ∷ Opcode.mul ∷ Opcode.mulh ∷ Opcode.mulhsu ∷ Opcode.mulhu
    ∷ Opcode.div ∷ Opcode.divu ∷ Opcode.rem ∷ Opcode.remu ∷ []

-- The first test that succeeds.
unfoldable pub first_match : ℕ → List Opcode → Option Opcode
first_match instruction [] = none
first_match instruction (op ∷ ops) =
    if matches instruction op then some op else first_match instruction ops

unfoldable pub execute : Environment → Opcode → State → ℕ → Outcome State
execute env Opcode.add state instruction = ok (Alu.add state instruction)
execute env Opcode.addi state instruction = ok (Alu.addi state instruction)
execute env Opcode.and state instruction = ok (Alu.and state instruction)
execute env Opcode.andi state instruction = ok (Alu.andi state instruction)
execute env Opcode.auipc state instruction = ok (Alu.auipc state instruction)
execute env Opcode.beq state instruction = ok (Branch.beq state instruction)
execute env Opcode.bge state instruction = ok (Branch.bge state instruction)
execute env Opcode.bgeu state instruction = ok (Branch.bgeu state instruction)
execute env Opcode.blt state instruction = ok (Branch.blt state instruction)
execute env Opcode.bltu state instruction = ok (Branch.bltu state instruction)
execute env Opcode.bne state instruction = ok (Branch.bne state instruction)
execute env Opcode.ebreak state instruction = ok (Exception.ebreak state instruction)
execute env Opcode.ecall state instruction = Exception.ecall env state instruction
execute env Opcode.fence state instruction = ok (Branch.fence state instruction)
execute env Opcode.fence_i state instruction = ok (Branch.fencei state instruction)
execute env Opcode.jal state instruction = ok (Branch.jal state instruction)
execute env Opcode.jalr state instruction = ok (Branch.jalr state instruction)
execute env Opcode.lb state instruction = LoadStore.lb state instruction
execute env Opcode.lbu state instruction = LoadStore.lbu state instruction
execute env Opcode.lh state instruction = LoadStore.lh state instruction
execute env Opcode.lhu state instruction = LoadStore.lhu state instruction
execute env Opcode.lui state instruction = ok (Alu.lui state instruction)
execute env Opcode.lw state instruction = LoadStore.lw state instruction
execute env Opcode.or state instruction = ok (Alu.or state instruction)
execute env Opcode.ori state instruction = ok (Alu.ori state instruction)
execute env Opcode.sb state instruction = LoadStore.sb env state instruction
execute env Opcode.sh state instruction = LoadStore.sh env state instruction
execute env Opcode.sll state instruction = ok (Alu.sll state instruction)
execute env Opcode.slli state instruction = ok (Alu.slli state instruction)
execute env Opcode.slt state instruction = ok (Alu.slt state instruction)
execute env Opcode.slti state instruction = ok (Alu.slti state instruction)
execute env Opcode.sltiu state instruction = ok (Alu.sltiu state instruction)
execute env Opcode.sltu state instruction = ok (Alu.sltu state instruction)
execute env Opcode.sra state instruction = ok (Alu.sra state instruction)
execute env Opcode.srai state instruction = ok (Alu.srai state instruction)
execute env Opcode.srl state instruction = ok (Alu.srl state instruction)
execute env Opcode.srli state instruction = ok (Alu.srli state instruction)
execute env Opcode.sub state instruction = ok (Alu.sub state instruction)
execute env Opcode.sw state instruction = LoadStore.sw env state instruction
execute env Opcode.xor state instruction = ok (Alu.xor state instruction)
execute env Opcode.xori state instruction = ok (Alu.xori state instruction)
execute env Opcode.wfi state instruction = Privileged.wfi state instruction
execute env Opcode.mret state instruction = Privileged.mret state instruction
execute env Opcode.sret state instruction = Privileged.sret state instruction
execute env Opcode.uret state instruction = ok (Privileged.uret state instruction)
execute env Opcode.csrrs state instruction = ok (Csr.csrrs state instruction)
execute env Opcode.csrrw state instruction = ok (Csr.csrrw state instruction)
execute env Opcode.csrrc state instruction = ok (Csr.csrrc state instruction)
execute env Opcode.csrrsi state instruction = ok (Csr.csrrsi state instruction)
execute env Opcode.csrrwi state instruction = ok (Csr.csrrwi state instruction)
execute env Opcode.csrrci state instruction = ok (Csr.csrrci state instruction)
execute env Opcode.amoadd_w state instruction = Atomic.amoadd_w env state instruction
execute env Opcode.amoor_w state instruction = Atomic.amoor_w env state instruction
execute env Opcode.amoand_w state instruction = Atomic.amoand_w env state instruction
execute env Opcode.amoxor_w state instruction = Atomic.amoxor_w env state instruction
execute env Opcode.amoswap_w state instruction = Atomic.amoswap_w env state instruction
execute env Opcode.lr_w state instruction = Atomic.lr state instruction
execute env Opcode.sc_w state instruction = Atomic.sc env state instruction
execute env Opcode.sfence_vma state instruction = ok (Privileged.sfence_vma state instruction)
execute env Opcode.mul state instruction = ok (Mul.mul state instruction)
execute env Opcode.mulh state instruction = ok (Mul.mulh state instruction)
execute env Opcode.mulhsu state instruction = ok (Mul.mulhsu state instruction)
execute env Opcode.mulhu state instruction = ok (Mul.mulhu state instruction)
execute env Opcode.div state instruction = ok (Mul.op_div state instruction)
execute env Opcode.divu state instruction = ok (Mul.divu state instruction)
execute env Opcode.rem state instruction = ok (Mul.rem state instruction)
execute env Opcode.remu state instruction = ok (Mul.remu state instruction)

abbrev pub exit_illegal_instruction : ℕ
exit_illegal_instruction = 0x2

-- With no match the process ends; what follows the `exit` never runs.
unfoldable pub dispatch : Environment → State → ℕ → Outcome State
unfolding chain first_match
dispatch env state instruction = elim (first_match instruction chain) [
  | none ↦ exit exit_illegal_instruction
  | some op ↦ execute env op state instruction
]
