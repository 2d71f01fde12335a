-- ===== src/Cpu/Csr.antt =====
-- cpu_csr.c: reads and writes of the control and status registers.
pub mod Laws
use emuriscv.Base.{ℕ, bit_and, bit_or, ◌==◌, if◌then◌else◌, not32}
use emuriscv.Decode.{get_rd, get_i_imm_unsigned, get_csr_imm}
use emuriscv.Machine.{State, read_csr, write_csr, get_rs1_value, set_rd_value}

-- `rd` is written before `rs1` is read.
unfoldable pub csrrs : State → ℕ → State
csrrs state instruction =
    let csr = get_i_imm_unsigned instruction in
    let state' = set_rd_value state instruction (read_csr state csr) in
    let value = get_rs1_value state' instruction in
    write_csr state' csr (bit_or (read_csr state' csr) value)

unfoldable pub csrrw : State → ℕ → State
csrrw state instruction =
    let csr = get_i_imm_unsigned instruction in
    let old_value = read_csr state csr in
    let state' = write_csr state csr (get_rs1_value state instruction) in
    if get_rd instruction == 0 then state' else set_rd_value state' instruction old_value

-- The old value into `rd`, unless that is x0.
unfoldable pub read_into_rd : State → ℕ → ℕ → State
read_into_rd state instruction csr =
    if get_rd instruction == 0 then state else set_rd_value state instruction (read_csr state csr)

-- `rd` is written before `rs1` is read.
unfoldable pub csrrc : State → ℕ → State
unfolding read_into_rd
csrrc state instruction =
    let csr = get_i_imm_unsigned instruction in
    let state' = read_into_rd state instruction csr in
    let value = get_rs1_value state' instruction in
    write_csr state' csr (bit_and (read_csr state' csr) (not32 value))

-- The body is that of `csrrci`, without its test.
unfoldable pub csrrwi : State → ℕ → State
unfolding read_into_rd
csrrwi state instruction =
    let csr = get_i_imm_unsigned instruction in
    let state' = read_into_rd state instruction csr in
    let value = get_csr_imm instruction in
    write_csr state' csr (bit_and (read_csr state' csr) (not32 value))

unfoldable pub csrrsi : State → ℕ → State
csrrsi state instruction =
    let csr = get_i_imm_unsigned instruction in
    let state' = set_rd_value state instruction (state.csr csr) in
    let value = get_csr_imm instruction in
    if value == 0 then state' else write_csr state' csr (bit_or (read_csr state' csr) value)

unfoldable pub csrrci : State → ℕ → State
unfolding read_into_rd
csrrci state instruction =
    let csr = get_i_imm_unsigned instruction in
    let state' = read_into_rd state instruction csr in
    let value = get_csr_imm instruction in
    if value == 0
    then state'
    else write_csr state' csr (bit_and (read_csr state' csr) (not32 value))
