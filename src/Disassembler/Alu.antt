-- ===== src/Disassembler/Alu.antt =====
-- The lines of the arithmetic instructions.
use emuriscv.Base.{ℕ, ◌-◌, ◌^◌, ◌==◌, ◌&&◌, if◌then◌else◌, bit_and, [], ◌∷◌}
use emuriscv.Decode.{get_rd, get_rs1, get_rs2, get_i_imm, i_imm, i_shamt}
use emuriscv.Disassembler.Print.{register, number, Line, line, upper_immediate}

unfoldable pub print_add : ℕ → Line
print_add w =
    line "add\t%s,%s,%s\n" (register (get_rd w) ∷ register (get_rs1 w) ∷ register (get_rs2 w) ∷ [])

unfoldable pub print_addi : ℕ → Line
print_addi w =
    if get_rs1 w == 0
    then if get_rd w == 0 && get_i_imm w == 0
      then line "nop\n" []
      else line "li\t%s,%d\n" (register (get_rd w) ∷ number (get_i_imm w) ∷ [])
    else if get_i_imm w == 0
    then line "mv\t%s,%s\n" (register (get_rd w) ∷ register (get_rs1 w) ∷ [])
    else line "addi\t%s,%s,%d\n"
        (register (get_rd w) ∷ register (get_rs1 w) ∷ number (get_i_imm w) ∷ [])

unfoldable pub print_and : ℕ → Line
print_and w =
    line "and\t%s,%s,%s\n" (register (get_rd w) ∷ register (get_rs1 w) ∷ register (get_rs2 w) ∷ [])

unfoldable pub print_andi : ℕ → Line
print_andi w =
    line "andi\t%s,%s,%d\n" (register (get_rd w) ∷ register (get_rs1 w) ∷ number (get_i_imm w) ∷ [])

unfoldable pub print_auipc : ℕ → Line
print_auipc w = line "auipc\t%s,0x%x\n" (register (get_rd w) ∷ number (upper_immediate w) ∷ [])

unfoldable pub print_lui : ℕ → Line
print_lui w = line "lui\t%s,0x%x\n" (register (get_rd w) ∷ number (upper_immediate w) ∷ [])

unfoldable pub print_or : ℕ → Line
print_or w =
    line "or\t%s,%s,%s\n" (register (get_rd w) ∷ register (get_rs1 w) ∷ register (get_rs2 w) ∷ [])

unfoldable pub print_ori : ℕ → Line
print_ori w =
    line "ori\t%s,%s,%d\n" (register (get_rd w) ∷ register (get_rs1 w) ∷ number (i_imm w) ∷ [])

unfoldable pub print_sll : ℕ → Line
print_sll w =
    line "sll\t%s,%s,%s\n" (register (get_rd w) ∷ register (get_rs1 w) ∷ register (get_rs2 w) ∷ [])

unfoldable pub print_slli : ℕ → Line
print_slli w =
    line "slli\t%s,%s,0x%x\n"
      (register (get_rd w) ∷ register (get_rs1 w) ∷ number (bit_and (i_shamt w) 0x1f) ∷ [])

unfoldable pub print_slt : ℕ → Line
print_slt w =
    if get_rs1 w == 0
    then line "sgtz\t%s,%s\n" (register (get_rd w) ∷ register (get_rs2 w) ∷ [])
    else line "slt\t%s,%s,%s\n"
        (register (get_rd w) ∷ register (get_rs1 w) ∷ register (get_rs2 w) ∷ [])

unfoldable pub print_sltu : ℕ → Line
print_sltu w =
    if get_rs1 w == 0
    then line "snez\t%s,%s\n" (register (get_rd w) ∷ register (get_rs2 w) ∷ [])
    else line "sltu\t%s,%s,%s\n"
        (register (get_rd w) ∷ register (get_rs1 w) ∷ register (get_rs2 w) ∷ [])

unfoldable pub print_slti : ℕ → Line
print_slti w =
    line "slti\t%s,%s,%d\n" (register (get_rd w) ∷ register (get_rs1 w) ∷ number (i_imm w) ∷ [])

unfoldable pub print_sltiu : ℕ → Line
print_sltiu w =
    if i_imm w == 1
    then line "seqz\t%s,%s\n" (register (get_rd w) ∷ register (get_rs1 w) ∷ [])
    else line "sltiu\t%s,%s,%d\n"
        (register (get_rd w) ∷ register (get_rs1 w) ∷ number (i_imm w) ∷ [])

unfoldable pub print_sra : ℕ → Line
print_sra w =
    line "sra\t%s,%s,%s\n" (register (get_rd w) ∷ register (get_rs1 w) ∷ register (get_rs2 w) ∷ [])

unfoldable pub print_srai : ℕ → Line
print_srai w =
    line "srai\t%s,%s,0x%x\n"
      (register (get_rd w) ∷ register (get_rs1 w) ∷ number (bit_and (i_shamt w) 0x1f) ∷ [])

unfoldable pub print_srl : ℕ → Line
print_srl w =
    line "srl\t%s,%s,%s\n" (register (get_rd w) ∷ register (get_rs1 w) ∷ register (get_rs2 w) ∷ [])

unfoldable pub print_srli : ℕ → Line
print_srli w =
    line "srli\t%s,%s,0x%x\n"
      (register (get_rd w) ∷ register (get_rs1 w) ∷ number (bit_and (i_shamt w) 0x1f) ∷ [])

unfoldable pub print_sub : ℕ → Line
print_sub w =
    if get_rs1 w == 0
    then line "neg\t%s,%s\n" (register (get_rd w) ∷ register (get_rs2 w) ∷ [])
    else line "sub\t%s,%s,%s\n"
        (register (get_rd w) ∷ register (get_rs1 w) ∷ register (get_rs2 w) ∷ [])

unfoldable pub print_xor : ℕ → Line
print_xor w =
    line "xor\t%s,%s,%s\n" (register (get_rd w) ∷ register (get_rs1 w) ∷ register (get_rs2 w) ∷ [])

unfoldable pub print_xori : ℕ → Line
print_xori w =
    if i_imm w == 2 ^ 32 - 1
    then line "not\t%s,%s\n" (register (get_rd w) ∷ register (get_rs1 w) ∷ [])
    else line "xori\t%s,%s,%d\n"
        (register (get_rd w) ∷ register (get_rs1 w) ∷ number (i_imm w) ∷ [])
