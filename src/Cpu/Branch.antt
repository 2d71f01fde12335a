-- ===== src/Cpu/Branch.antt =====
-- The branches, jumps and fences of cpu.c. `pc` was incremented before the handler runs.
pub mod Targets
use emuriscv.Base.{ℕ, Bool, ◌==◌, ltb, leb, not, if◌then◌else◌, add32, sub32, to_signed, ltℤ, geℤ}
use emuriscv.Decode.{get_b_imm, get_i_imm, get_j_imm}
use emuriscv.Machine.{State, get_rs1_value, get_rs2_value, set_rd_value}

-- `state->pc += offset - INSTRUCTION_LENGTH_BYTES` under the test.
unfoldable pub branch_if : Bool → State → ℕ → State
branch_if taken state instruction =
    if taken then record state { pc = add32 state.pc (sub32 (get_b_imm instruction) 4) } else state

unfoldable pub beq : State → ℕ → State
unfolding branch_if
beq state instruction =
    branch_if ((get_rs1_value state instruction) == (get_rs2_value state instruction)) state
      instruction

unfoldable pub bge : State → ℕ → State
unfolding branch_if
bge state instruction =
    branch_if
      (geℤ (to_signed (get_rs1_value state instruction))
        (to_signed (get_rs2_value state instruction)))
      state instruction

unfoldable pub bgeu : State → ℕ → State
unfolding branch_if
bgeu state instruction =
    branch_if (leb (get_rs2_value state instruction) (get_rs1_value state instruction)) state
      instruction

unfoldable pub blt : State → ℕ → State
unfolding branch_if
blt state instruction =
    branch_if
      (ltℤ (to_signed (get_rs1_value state instruction))
        (to_signed (get_rs2_value state instruction)))
      state instruction

unfoldable pub bltu : State → ℕ → State
unfolding branch_if
bltu state instruction =
    branch_if (ltb (get_rs1_value state instruction) (get_rs2_value state instruction)) state
      instruction

unfoldable pub bne : State → ℕ → State
unfolding branch_if
bne state instruction =
    branch_if (not ((get_rs1_value state instruction) == (get_rs2_value state instruction))) state
      instruction

-- `fence` and `fencei` do nothing.
unfoldable pub fence : State → ℕ → State
fence state instruction = state

unfoldable pub fencei : State → ℕ → State
fencei state instruction = state

unfoldable pub jal : State → ℕ → State
jal state instruction =
    let destination = sub32 (add32 state.pc (get_j_imm instruction)) 4 in
    let return_address = state.pc in
    record (set_rd_value state instruction return_address) { pc = destination }

unfoldable pub jalr : State → ℕ → State
jalr state instruction =
    let destination = add32 (get_rs1_value state instruction) (get_i_imm instruction) in
    let return_address = state.pc in
    record (set_rd_value state instruction return_address) { pc = destination }
