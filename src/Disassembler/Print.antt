-- ===== src/Disassembler/Print.antt =====
-- The handlers of disassembler/disassembler.c. Each prints one line by a call of `vprintf`, and the
-- model has the arguments of that call: the format and the values after it. A name out of the table
-- of registers, or one that `csr_name` gives, is kept as its index.
use Prim.Native.String.{String}
use emuriscv.Base.{
  ℕ, ◌==◌, if◌then◌else◌, bit_and, shl32, to_signed, of_signed, shr_ℤ, List, [], ◌∷◌,
}
use emuriscv.Decode.{get_rd, get_rs1, get_rs2, get_i_imm_unsigned, get_csr_imm, u_data}

pub data Argument : Type 0 where
  register : ℕ → Argument
  number : ℕ → Argument
  csr_name : ℕ → Argument
  text : String → Argument

pub record Line : Type 0 where
  pub format : String
  pub arguments : List Argument

abbrev pub line : String → List Argument → Line
line format arguments = record { format = format; arguments = arguments }

-- `(in->data << 12 >> 12) & 0xfffff`.
unfoldable pub upper_immediate : ℕ → ℕ
upper_immediate w = bit_and (of_signed (shr_ℤ (to_signed (shl32 (u_data w) 12)) 12)) 0xfffff

-- The macros `M_OP` and `AMO_OP_W`, with the name in the format.
unfoldable pub m_op_line : String → ℕ → Line
m_op_line format w =
    line format (register (get_rd w) ∷ register (get_rs1 w) ∷ register (get_rs2 w) ∷ [])

unfoldable pub amo_line : String → ℕ → Line
amo_line format w =
    line format (register (get_rd w) ∷ register (get_rs2 w) ∷ register (get_rs1 w) ∷ [])

unfoldable pub print_csr : String → String → ℕ → Line
print_csr name_full name_zero w =
    let csr = csr_name (get_i_imm_unsigned w) in
    if get_rd w == 0
    then line "%s\t%s,%s\n" (text name_zero ∷ csr ∷ register (get_rs1 w) ∷ [])
    else line "%s\t%s,%s,%s\n"
        (text name_full ∷ register (get_rd w) ∷ csr ∷ register (get_rs1 w) ∷ [])

unfoldable pub print_csri : String → String → ℕ → Line
print_csri name_full name_zero w =
    let csr = csr_name (get_i_imm_unsigned w) in
    if get_rd w == 0
    then line "%s\t%s,%d\n" (text name_zero ∷ csr ∷ number (get_csr_imm w) ∷ [])
    else line "%s\t%s,%s,%d\n"
        (text name_full ∷ register (get_rd w) ∷ csr ∷ number (get_csr_imm w) ∷ [])
