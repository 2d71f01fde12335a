-- ===== src/Cpu/Step.antt =====
-- `emulate_op`: one instruction.
pub mod Counters
pub mod Executes
use emuriscv.Base.{ℕ, zero, suc, ◌+◌, ◌-◌, if◌then◌else◌}
use emuriscv.Base.{update, add32, Outcome, ok, ◌>>=◌}
use emuriscv.Machine.{State, Environment, write_csr}
use emuriscv.Memory.Ram.{read_word_ram}
use emuriscv.Memory.Translate.{get_memory_target, fetch, found, faulted, no_range}
use emuriscv.Cpu.Exception.{raise_exception}
use emuriscv.Cpu.Dispatch.{dispatch}

abbrev pub pc_history_depth : ℕ
pc_history_depth = 8

abbrev pub csr_cycle : ℕ
csr_cycle = 0xc00

abbrev pub csr_time : ℕ
csr_time = 0xc01

-- `for (i = 0; i < PC_HISTORY_DEPTH - 1; i++) pc_history[i] = pc_history[i + 1]`, with the
-- number of rounds left first.
unfoldable pub shift_history : ℕ → ℕ → (ℕ → ℕ) → ℕ → ℕ
shift_history zero i history = history
shift_history (suc left) i history = shift_history left (i + 1) (update history i (history (i + 1)))

unfoldable pub take_pending : State → State
take_pending state =
    if state.has_pending_exception
    then raise_exception state state.pending_exception state.pending_tval
    else state

-- What follows the handler.
unfoldable pub finish_op : State → State
unfolding shift_history take_pending
finish_op state =
    let s1 = record state {
      pc_history = shift_history (pc_history_depth - 1) 0 state.pc_history;
    } in
    let s2 = take_pending s1 in
    let s3 = record s2 {
      pc_history = update s2.pc_history (pc_history_depth - 1) s2.pc;
      instruction_counter = add32 s2.instruction_counter 1;
    } in
    write_csr (write_csr s3 csr_time s3.instruction_counter) csr_cycle s3.instruction_counter

-- The label `exception`: the fetch failed.
unfoldable pub fetch_exception : State → State
fetch_exception state = raise_exception state state.pending_exception state.pending_tval

-- `*instruction` is the host's 32-bit load, of little-endian byte order. Handlers get the word
-- that is loaded here.
unfoldable pub emulate_op : Environment → State → Outcome State
unfolding finish_op fetch_exception
emulate_op env state = get_memory_target state state.pc fetch >>= λ (fetched, target).
    let advanced = record fetched { pc = add32 fetched.pc 4 } in
    elim target [
      | found pointer ↦ read_word_ram advanced.memory_map pointer >>= λ instruction.
          dispatch env advanced instruction >>= λ done. ok (finish_op done)
      | faulted ↦ ok (fetch_exception advanced)
      | no_range ↦ ok (fetch_exception advanced)
    ]
