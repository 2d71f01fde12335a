-- ===== src/Disassembler/Flow.antt =====
-- The lines of branches, jumps, fences, traps and returns. `pc` is the address of the instruction.
use emuriscv.Base.{ℕ, ◌==◌, ◌&&◌, if◌then◌else◌, add32, [], ◌∷◌}
use emuriscv.Decode.{get_rd, get_rs1, get_rs2, get_i_imm, get_b_imm, get_j_imm}
use emuriscv.Disassembler.Print.{register, number, Line, line}

unfoldable pub print_beq : ℕ → ℕ → Line
print_beq pc w =
    if get_rs2 w == 0
    then line "beqz\t%s,0x%x\n" (register (get_rs1 w) ∷ number (add32 (get_b_imm w) pc) ∷ [])
    else line "beq\t%s,%s,0x%x\n"
        (register (get_rs1 w) ∷ register (get_rs2 w) ∷ number (add32 (get_b_imm w) pc) ∷ [])

unfoldable pub print_bge : ℕ → ℕ → Line
print_bge pc w =
    if get_rs2 w == 0
    then line "bgez\t%s,0x%x\n" (register (get_rs1 w) ∷ number (add32 (get_b_imm w) pc) ∷ [])
    else if get_rs1 w == 0
    then line "blez\t%s,0x%x\n" (register (get_rs2 w) ∷ number (add32 (get_b_imm w) pc) ∷ [])
    else line "bge\t%s,%s,0x%x\n"
        (register (get_rs1 w) ∷ register (get_rs2 w) ∷ number (add32 (get_b_imm w) pc) ∷ [])

unfoldable pub print_bgeu : ℕ → ℕ → Line
print_bgeu pc w =
    line "bgeu\t%s,%s,0x%x\n"
      (register (get_rs1 w) ∷ register (get_rs2 w) ∷ number (add32 (get_b_imm w) pc) ∷ [])

unfoldable pub print_blt : ℕ → ℕ → Line
print_blt pc w =
    if get_rs2 w == 0
    then line "bltz\t%s,0x%x\n" (register (get_rs1 w) ∷ number (add32 (get_b_imm w) pc) ∷ [])
    else if get_rs1 w == 0
    then line "bgtz\t%s,0x%x\n" (register (get_rs2 w) ∷ number (add32 (get_b_imm w) pc) ∷ [])
    else line "blt\t%s,%s,0x%x\n"
        (register (get_rs1 w) ∷ register (get_rs2 w) ∷ number (add32 (get_b_imm w) pc) ∷ [])

unfoldable pub print_bltu : ℕ → ℕ → Line
print_bltu pc w =
    line "bltu\t%s,%s,0x%x\n"
      (register (get_rs1 w) ∷ register (get_rs2 w) ∷ number (add32 (get_b_imm w) pc) ∷ [])

unfoldable pub print_bne : ℕ → ℕ → Line
print_bne pc w =
    if get_rs2 w == 0
    then line "bnez\t%s,0x%x\n" (register (get_rs1 w) ∷ number (add32 (get_b_imm w) pc) ∷ [])
    else line "bne\t%s,%s,0x%x\n"
        (register (get_rs1 w) ∷ register (get_rs2 w) ∷ number (add32 (get_b_imm w) pc) ∷ [])

unfoldable pub print_fence : ℕ → Line
print_fence w = line "fence\n" []

unfoldable pub print_fencei : ℕ → Line
print_fencei w = line "fence.i\n" []

unfoldable pub print_jal : ℕ → ℕ → Line
print_jal pc w =
    if get_rd w == 0
    then line "j\t0x%X\n" (number (add32 (get_j_imm w) pc) ∷ [])
    else line "jal\t%s,0x%X\n" (register (get_rd w) ∷ number (add32 (get_j_imm w) pc) ∷ [])

unfoldable pub print_jalr : ℕ → Line
print_jalr w =
    if get_i_imm w == 0 && (get_rd w == 0 && get_rs1 w == 1)
    then line "ret\n" []
    else if get_i_imm w == 0 && get_rd w == 1
    then line "jalr\t%s\n" (register (get_rs1 w) ∷ [])
    else if get_i_imm w == 0 && get_rd w == 0
    then line "jr\t%s\n" (register (get_rs1 w) ∷ [])
    else if get_rd w == get_rs1 w
    then line "jalr\t%d(%s)\n" (number (get_i_imm w) ∷ register (get_rs1 w) ∷ [])
    else line "jalr\t%s,%s,%d\n"
        (register (get_rd w) ∷ register (get_rs1 w) ∷ number (get_i_imm w) ∷ [])

unfoldable pub print_mret : ℕ → Line
print_mret w = line "mret\n" []

unfoldable pub print_sret : ℕ → Line
print_sret w = line "sret\n" []

unfoldable pub print_uret : ℕ → Line
print_uret w = line "uret\n" []

unfoldable pub print_sfence_vma : ℕ → Line
print_sfence_vma w = line "sfence.vma\r\n" []

unfoldable pub print_wfi : ℕ → Line
print_wfi w = line "wfi\n" []

unfoldable pub print_ebreak : ℕ → Line
print_ebreak w = line "ebreak\n" []

unfoldable pub print_ecall : ℕ → Line
print_ecall w = line "ecall\n" []
