-- ===== src/Machine.antt =====
-- state.h, vm.h, csr.c and csr.h, and the register accessors of cpu.c.
pub mod Registers
pub mod Valid
use emuriscv.Base.{ℕ, Bool, ◌==◌, if◌then◌else◌, update}
use emuriscv.Base.{Outcome, List}
use emuriscv.Decode.{get_rd, get_rs1, get_rs2}
use emuriscv.Memory.Map.{MemoryMap}

pub data Status : Type 0 where
  running breakpoint exit_termination : Status

-- The value of the enumerator.
unfoldable pub status_code : Status → ℕ
status_code running = 0
status_code breakpoint = 1
status_code exit_termination = 2

abbrev pub priv_m : ℕ
priv_m = 3

abbrev pub priv_s : ℕ
priv_s = 1

abbrev pub priv_u : ℕ
priv_u = 0

-- `RiscVMachine`, the object behind the `opaque` pointer of the device ranges, less its fixed
-- sizes.
pub record RiscVMachine : Type 0 where
  pub htif_tohost : ℕ
  pub htif_fromhost : ℕ
  pub timecmp : ℕ
  pub cycles : ℕ

-- The globals of run_linux.c that the UART uses, and the characters written to `stderr`, the
-- latest first.
pub record Console : Type 0 where
  pub uart_reg : ℕ → ℕ
  pub uart_skipped : ℕ
  pub stderr : List ℕ

pub record State : Type 0 where
  pub pc : ℕ
  pub x : ℕ → ℕ
  pub csr : ℕ → ℕ
  pub mhartid : ℕ
  pub status : Status
  pub memory_map : MemoryMap
  pub instruction_counter : ℕ
  pub pending_tval : ℕ
  pub pending_exception : ℕ
  pub has_pending_exception : Bool
  pub privilege : ℕ
  pub load_reservation : ℕ
  pub pc_history : ℕ → ℕ
  pub vm : RiscVMachine
  pub console : Console

-- `reset_mip`, which clint.c calls and no file defines, and the part of `ecall` that user mode
-- enters: it runs the monitor, whose `step` runs `emulate_op` and so `ecall` again. Monitor/Trace.antt
-- defines that part, and the environments in which it runs.
pub record Environment : Type 0 where
  pub reset_mip : ℕ → State → State
  pub trace_ecall : State → Outcome State

unfoldable pub read_csr : State → ℕ → ℕ
read_csr state csr = state.csr csr

unfoldable pub write_csr : State → ℕ → ℕ → State
write_csr state csr value = record state { csr = update state.csr csr value }

unfoldable pub get_reg : State → ℕ → ℕ
get_reg state index = state.x index

-- The result code, which no caller reads, is left out.
unfoldable pub set_reg : State → ℕ → ℕ → State
set_reg state index value =
    if index == 0 then state else record state { x = update state.x index value }

unfoldable pub get_rs1_value : State → ℕ → ℕ
unfolding get_reg
get_rs1_value state instruction = get_reg state (get_rs1 instruction)

unfoldable pub get_rs2_value : State → ℕ → ℕ
unfolding get_reg
get_rs2_value state instruction = get_reg state (get_rs2 instruction)

unfoldable pub set_rd_value : State → ℕ → ℕ → State
unfolding set_reg
set_rd_value state instruction value = set_reg state (get_rd instruction) value
