-- ===== src/Cpu/LoadStore.antt =====
-- The loads and stores of cpu.c.
use emuriscv.Base.{ℕ, ◌==◌, if◌then◌else◌, add32, Outcome, ok, ◌>>=◌}
use emuriscv.Decode.{get_i_imm, get_s_imm}
use emuriscv.Machine.{State, Environment, get_rs1_value, get_rs2_value, set_rd_value}
use emuriscv.Memory.Access.{read_byte_signed, read_byte_unsigned, read_halfword_signed}
use emuriscv.Memory.Access.{
  read_halfword_unsigned, read_word, write_byte, write_halfword, write_word,
}

-- The end of each load: with a pending exception `rd` keeps its value.
unfoldable pub finish_load : ℕ → State → ℕ → State
finish_load instruction state value =
    if state.pending_exception == 0 then set_rd_value state instruction value else state

unfoldable pub lb : State → ℕ → Outcome State
unfolding finish_load
lb state instruction =
    let address = add32 (get_rs1_value state instruction) (get_i_imm instruction) in
    read_byte_signed state address >>= λ (state', value). ok (finish_load instruction state' value)

unfoldable pub lbu : State → ℕ → Outcome State
unfolding finish_load
lbu state instruction =
    let address = add32 (get_rs1_value state instruction) (get_i_imm instruction) in
    read_byte_unsigned state address >>= λ (state', value).
    ok (finish_load instruction state' value)

unfoldable pub lh : State → ℕ → Outcome State
unfolding finish_load
lh state instruction =
    let address = add32 (get_rs1_value state instruction) (get_i_imm instruction) in
    read_halfword_signed state address >>= λ (state', value).
    ok (finish_load instruction state' value)

unfoldable pub lhu : State → ℕ → Outcome State
unfolding finish_load
lhu state instruction =
    let address = add32 (get_rs1_value state instruction) (get_i_imm instruction) in
    read_halfword_unsigned state address >>= λ (state', value).
    ok (finish_load instruction state' value)

unfoldable pub lw : State → ℕ → Outcome State
unfolding finish_load
lw state instruction =
    let address = add32 (get_rs1_value state instruction) (get_i_imm instruction) in
    read_word state address >>= λ (state', value). ok (finish_load instruction state' value)

unfoldable pub sb : Environment → State → ℕ → Outcome State
sb env state instruction =
    let value = get_rs2_value state instruction in
    let address = add32 (get_rs1_value state instruction) (get_s_imm instruction) in
    write_byte env state address value

unfoldable pub sh : Environment → State → ℕ → Outcome State
sh env state instruction =
    let value = get_rs2_value state instruction in
    let address = add32 (get_rs1_value state instruction) (get_s_imm instruction) in
    write_halfword env state address value

unfoldable pub sw : Environment → State → ℕ → Outcome State
sw env state instruction =
    let value = get_rs2_value state instruction in
    let address = add32 (get_rs1_value state instruction) (get_s_imm instruction) in
    write_word env state address value
