-- ===== src/Disassembler/Extensions.antt =====
-- The lines of loads and stores, of the M and A extensions, and of the CSR instructions.
use emuriscv.Base.{ℕ, ◌==◌, if◌then◌else◌, [], ◌∷◌}
use emuriscv.Decode.{get_rd, get_rs1, get_rs2, get_i_imm, get_s_imm, get_i_imm_unsigned}
use emuriscv.Disassembler.Print.{
  register, number, csr_name, Line, line, m_op_line, amo_line, print_csr, print_csri,
}

unfoldable pub print_lb : ℕ → Line
print_lb w =
    line "lb\t%s,%d(%s)\n" (register (get_rd w) ∷ number (get_i_imm w) ∷ register (get_rs1 w) ∷ [])

unfoldable pub print_lbu : ℕ → Line
print_lbu w =
    line "lbu\t%s,%d(%s)\n" (register (get_rd w) ∷ number (get_i_imm w) ∷ register (get_rs1 w) ∷ [])

unfoldable pub print_lh : ℕ → Line
print_lh w =
    line "lh\t%s,%d(%s)\n" (register (get_rd w) ∷ number (get_i_imm w) ∷ register (get_rs1 w) ∷ [])

unfoldable pub print_lhu : ℕ → Line
print_lhu w =
    line "lhu\t%s,%d(%s)\n" (register (get_rd w) ∷ number (get_i_imm w) ∷ register (get_rs1 w) ∷ [])

unfoldable pub print_lw : ℕ → Line
print_lw w =
    line "lw\t%s,%d(%s)\n" (register (get_rd w) ∷ number (get_i_imm w) ∷ register (get_rs1 w) ∷ [])

unfoldable pub print_sb : ℕ → Line
print_sb w =
    line "sb\t%s,%d(%s)\n" (register (get_rs2 w) ∷ number (get_s_imm w) ∷ register (get_rs1 w) ∷ [])

unfoldable pub print_sh : ℕ → Line
print_sh w =
    line "sh\t%s,%d(%s)\n" (register (get_rs2 w) ∷ number (get_s_imm w) ∷ register (get_rs1 w) ∷ [])

unfoldable pub print_sw : ℕ → Line
print_sw w =
    line "sw\t%s,%d(%s)\n" (register (get_rs2 w) ∷ number (get_s_imm w) ∷ register (get_rs1 w) ∷ [])

unfoldable pub print_mul : ℕ → Line
unfolding m_op_line
print_mul w = m_op_line "mul\t%s,%s,%s\n" w

unfoldable pub print_mulh : ℕ → Line
unfolding m_op_line
print_mulh w = m_op_line "mulh\t%s,%s,%s\n" w

unfoldable pub print_mulhu : ℕ → Line
unfolding m_op_line
print_mulhu w = m_op_line "mulhu\t%s,%s,%s\n" w

unfoldable pub print_mulhsu : ℕ → Line
unfolding m_op_line
print_mulhsu w = m_op_line "mulhsu\t%s,%s,%s\n" w

unfoldable pub print_rem : ℕ → Line
unfolding m_op_line
print_rem w = m_op_line "rem\t%s,%s,%s\n" w

unfoldable pub print_remu : ℕ → Line
unfolding m_op_line
print_remu w = m_op_line "remu\t%s,%s,%s\n" w

unfoldable pub print_op_div : ℕ → Line
unfolding m_op_line
print_op_div w = m_op_line "div\t%s,%s,%s\n" w

unfoldable pub print_divu : ℕ → Line
unfolding m_op_line
print_divu w = m_op_line "divu\t%s,%s,%s\n" w

unfoldable pub print_csrrs : ℕ → Line
unfolding print_csr
print_csrrs w =
    if get_rs1 w == 0
    then line "csrr\t%s,%s\n" (register (get_rd w) ∷ csr_name (get_i_imm_unsigned w) ∷ [])
    else print_csr "csrrs" "csrs" w

unfoldable pub print_csrrw : ℕ → Line
unfolding print_csr
print_csrrw w = print_csr "csrrw" "csrw" w

unfoldable pub print_csrrc : ℕ → Line
unfolding print_csr
print_csrrc w = print_csr "csrrc" "csrc" w

unfoldable pub print_csrrwi : ℕ → Line
unfolding print_csri
print_csrrwi w = print_csri "csrwwi" "csrwi" w

unfoldable pub print_csrrsi : ℕ → Line
unfolding print_csri
print_csrrsi w = print_csri "csrrsi" "csrsi" w

unfoldable pub print_csrrci : ℕ → Line
unfolding print_csri
print_csrrci w = print_csri "csrrci" "csrci" w

unfoldable pub print_amoadd_w : ℕ → Line
unfolding amo_line
print_amoadd_w w = amo_line "amoadd.w\t%s,%s,(%s)\n" w

unfoldable pub print_amoand_w : ℕ → Line
unfolding amo_line
print_amoand_w w = amo_line "amoand.w\t%s,%s,(%s)\n" w

unfoldable pub print_amoor_w : ℕ → Line
unfolding amo_line
print_amoor_w w = amo_line "amoor.w\t%s,%s,(%s)\n" w

unfoldable pub print_amoxor_w : ℕ → Line
unfolding amo_line
print_amoxor_w w = amo_line "amoxor.w\t%s,%s,(%s)\n" w

unfoldable pub print_amoswap_w : ℕ → Line
unfolding amo_line
print_amoswap_w w = amo_line "amoswap.w\t%s,%s,(%s)\n" w

unfoldable pub print_lr : ℕ → Line
print_lr w = line "lr\t%s,(%s)\n" (register (get_rd w) ∷ register (get_rs1 w) ∷ [])

unfoldable pub print_sc : ℕ → Line
print_sc w =
    line "sc\t%s,%s,(%s)\n" (register (get_rd w) ∷ register (get_rs2 w) ∷ register (get_rs1 w) ∷ [])
