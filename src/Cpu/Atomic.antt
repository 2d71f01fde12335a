-- ===== src/Cpu/Atomic.antt =====
-- cpu_a.c: the atomic memory operations. None of them looks at a pending exception.
pub mod Reservation
use emuriscv.Base.{ℕ, ◌-◌, ◌^◌, bit_and, bit_or, bit_xor, ◌==◌, if◌then◌else◌, add32}
use emuriscv.Base.{Outcome, ok, ◌>>=◌}
use emuriscv.Machine.{State, Environment, get_rs1_value, get_rs2_value, set_rd_value}
use emuriscv.Memory.Access.{read_word, write_word}

-- The macro `AMO_OP_W`.
unfoldable pub amo_op_w : (ℕ → ℕ → ℕ) → Environment → State → ℕ → Outcome State
amo_op_w op env state instruction =
    let address = get_rs1_value state instruction in
    read_word state address >>= λ (state', original_value).
    let value = op original_value (get_rs2_value state' instruction) in
    write_word env state' address value >>= λ state''.
    ok (set_rd_value state'' instruction original_value)

unfoldable pub amoadd_w : Environment → State → ℕ → Outcome State
unfolding amo_op_w
amoadd_w env state instruction = amo_op_w add32 env state instruction

unfoldable pub amoand_w : Environment → State → ℕ → Outcome State
unfolding amo_op_w
amoand_w env state instruction = amo_op_w bit_and env state instruction

unfoldable pub amoor_w : Environment → State → ℕ → Outcome State
unfolding amo_op_w
amoor_w env state instruction = amo_op_w bit_or env state instruction

unfoldable pub amoxor_w : Environment → State → ℕ → Outcome State
unfolding amo_op_w
amoxor_w env state instruction = amo_op_w bit_xor env state instruction

-- `rd` is written before `rs2` is read.
unfoldable pub amoswap_w : Environment → State → ℕ → Outcome State
amoswap_w env state instruction =
    let address = get_rs1_value state instruction in
    read_word state address >>= λ (state', value).
    let loaded = set_rd_value state' instruction value in
    write_word env loaded address (get_rs2_value loaded instruction)

unfoldable pub lr : State → ℕ → Outcome State
lr state instruction =
    let address = get_rs1_value state instruction in
    read_word state address >>= λ (state', value).
    ok (record (set_rd_value state' instruction value) { load_reservation = address })

-- The reservation after any `sc`.
abbrev pub no_reservation : ℕ
no_reservation = 2 ^ 32 - 1

unfoldable pub sc : Environment → State → ℕ → Outcome State
sc env state instruction =
    let address = get_rs1_value state instruction in
    let value = get_rs2_value state instruction in
    let stored =
      write_word env state address value >>= λ state'. ok (set_rd_value state' instruction 0) in
    (if state.load_reservation == address then stored else ok (set_rd_value state instruction 1))
    >>= λ state'. ok (record state' { load_reservation = no_reservation })
