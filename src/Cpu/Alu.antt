-- ===== src/Cpu/Alu.antt =====
-- The register-register and register-immediate instructions of cpu.c.
use emuriscv.Base.{ℕ, bit_and, bit_or, bit_xor, ltb, if◌then◌else◌, add32, sub32, shl32, shr}
use emuriscv.Base.{to_signed, of_signed, ltℤ, shr_ℤ, ◌%◌}
use emuriscv.Decode.{get_i_imm, i_imm, i_shamt, u_data}
use emuriscv.Machine.{State, get_rs1_value, get_rs2_value, set_rd_value}

-- A shift by an `int` or `unsigned int` takes the low five bits of its count, as the host's shift
-- instruction does; C leaves a negative count undefined.
abbrev pub shift_left : ℕ → ℕ → ℕ
shift_left a count = shl32 a (count % 32)

abbrev pub shift_right : ℕ → ℕ → ℕ
shift_right a count = shr a (count % 32)

abbrev pub shift_right_signed : ℕ → ℕ → ℕ
shift_right_signed a count = of_signed (shr_ℤ (to_signed a) (count % 32))

abbrev pub less_than : ℕ → ℕ → ℕ
less_than a b = if ltb a b then 1 else 0

abbrev pub less_than_signed : ℕ → ℕ → ℕ
less_than_signed a b = if ltℤ (to_signed a) (to_signed b) then 1 else 0

unfoldable pub add : State → ℕ → State
add state instruction =
    set_rd_value state instruction
      (add32 (get_rs1_value state instruction) (get_rs2_value state instruction))

unfoldable pub addi : State → ℕ → State
addi state instruction =
    set_rd_value state instruction (add32 (get_rs1_value state instruction) (get_i_imm instruction))

unfoldable pub and : State → ℕ → State
and state instruction =
    set_rd_value state instruction
      (bit_and (get_rs1_value state instruction) (get_rs2_value state instruction))

unfoldable pub andi : State → ℕ → State
andi state instruction =
    set_rd_value state instruction
      (bit_and (get_rs1_value state instruction) (get_i_imm instruction))

unfoldable pub lui : State → ℕ → State
lui state instruction = set_rd_value state instruction (shl32 (u_data instruction) 12)

unfoldable pub or : State → ℕ → State
or state instruction =
    set_rd_value state instruction
      (bit_or (get_rs1_value state instruction) (get_rs2_value state instruction))

unfoldable pub ori : State → ℕ → State
ori state instruction =
    set_rd_value state instruction (bit_or (get_rs1_value state instruction) (i_imm instruction))

unfoldable pub sll : State → ℕ → State
sll state instruction =
    set_rd_value state instruction (
      shift_left (get_rs1_value state instruction) (bit_and (get_rs2_value state instruction) 0x1f))

unfoldable pub slli : State → ℕ → State
slli state instruction =
    set_rd_value state instruction
      (shift_left (get_rs1_value state instruction) (i_shamt instruction))

unfoldable pub slt : State → ℕ → State
slt state instruction =
    set_rd_value state instruction
      (less_than_signed (get_rs1_value state instruction) (get_rs2_value state instruction))

unfoldable pub sltu : State → ℕ → State
sltu state instruction =
    set_rd_value state instruction
      (less_than (get_rs1_value state instruction) (get_rs2_value state instruction))

unfoldable pub slti : State → ℕ → State
slti state instruction =
    set_rd_value state instruction
      (less_than_signed (get_rs1_value state instruction) (i_imm instruction))

unfoldable pub sltiu : State → ℕ → State
sltiu state instruction =
    set_rd_value state instruction (less_than (get_rs1_value state instruction) (i_imm instruction))

unfoldable pub sra : State → ℕ → State
sra state instruction = set_rd_value state instruction (
    shift_right_signed (get_rs1_value state instruction)
      (bit_and (get_rs2_value state instruction) 0x1f))

unfoldable pub srai : State → ℕ → State
srai state instruction =
    set_rd_value state instruction
      (shift_right_signed (get_rs1_value state instruction) (i_shamt instruction))

unfoldable pub srl : State → ℕ → State
srl state instruction =
    set_rd_value state instruction (
      shift_right (get_rs1_value state instruction)
        (bit_and (get_rs2_value state instruction) 0x1f))

unfoldable pub srli : State → ℕ → State
srli state instruction =
    set_rd_value state instruction
      (shift_right (get_rs1_value state instruction) (i_shamt instruction))

unfoldable pub sub : State → ℕ → State
sub state instruction =
    set_rd_value state instruction
      (sub32 (get_rs1_value state instruction) (get_rs2_value state instruction))

unfoldable pub xor : State → ℕ → State
xor state instruction =
    set_rd_value state instruction
      (bit_xor (get_rs1_value state instruction) (get_rs2_value state instruction))

unfoldable pub xori : State → ℕ → State
xori state instruction =
    set_rd_value state instruction (bit_xor (get_rs1_value state instruction) (i_imm instruction))

-- `pc` was incremented before the handler runs.
unfoldable pub auipc : State → ℕ → State
auipc state instruction =
    set_rd_value state instruction (add32 (shl32 (u_data instruction) 12) (sub32 state.pc 4))
