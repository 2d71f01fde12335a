-- ===== src/Boot.antt =====
-- The set-up of the machine in run_linux.c: `initialize_state_linux`, `initialize_riscv_machine`,
-- `write_bootloader`, and the loop of `run_linux`.
pub mod Ranges
pub mod Load
pub mod Start
pub mod Run
pub mod Valid
use emuriscv.Base.{
  ℕ, ◌+◌, ◌*◌, ◌-◌, ◌^◌, Bool, false, update, add32, sub32, shl32, u32, bit_or, [], Outcome, ok,
  ◌>>=◌,
}
use emuriscv.Base.{zero, suc}
use emuriscv.Cpu.Step.{emulate_op}
use emuriscv.Machine.{Environment, State, RiscVMachine, Console, running, priv_m, write_csr}
use emuriscv.Memory.Map.{MemoryMap, htif, clint, uart, phys_mem_map_init, cpu_register_ram}
use emuriscv.Memory.Map.{cpu_register_device}
use emuriscv.Memory.Ram.{MemoryTarget, write_case_word}

abbrev pub ram_size : ℕ
ram_size = 96 * 1024 * 1024

abbrev pub low_ram_size : ℕ
low_ram_size = 0x10000

abbrev pub ram_base_addr : ℕ
ram_base_addr = 0x80000000

abbrev pub clint_base_addr : ℕ
clint_base_addr = 0x2000000

abbrev pub clint_size : ℕ
clint_size = 0xc0000

abbrev pub htif_base_addr : ℕ
htif_base_addr = 0x40008000

abbrev pub htif_size : ℕ
htif_size = 16

abbrev pub uart_base_addr : ℕ
uart_base_addr = 0x10000000

abbrev pub uart_size : ℕ
uart_size = 0x100

abbrev pub bootloader_address : ℕ
bootloader_address = 0x1000

abbrev pub csr_misa : ℕ
csr_misa = 0x301

abbrev pub csr_mhartid : ℕ
csr_mhartid = 0xf14

-- The ranges in the order of their registration.
unfoldable pub initialize_riscv_machine : (ℕ → Bool) → Outcome MemoryMap
initialize_riscv_machine malloc = do
  low ← cpu_register_ram malloc phys_mem_map_init ram_base_addr ram_size
  ram ← cpu_register_ram malloc low 0x00000000 low_ram_size
  with_htif ← cpu_register_device ram htif_base_addr htif_size htif
  with_clint ← cpu_register_device with_htif clint_base_addr clint_size clint
  cpu_register_device with_clint uart_base_addr uart_size uart

-- The fields that are not set here are zero, by `mallocz` and for the globals. `run_linux` adds the
-- memory map and sets `pc`.
unfoldable pub initialize_state_linux : MemoryMap → State
unfolding write_csr
initialize_state_linux memory_map =
    let state : State = record {
      pc = 0;
      x = λ i. 0;
      csr = λ i. 0;
      mhartid = 0;
      status = running;
      memory_map = memory_map;
      instruction_counter = 0;
      pending_tval = 0;
      pending_exception = 0;
      has_pending_exception = false;
      privilege = priv_m;
      load_reservation = 0;
      pc_history = λ i. 0;
      vm = record { htif_tohost = 0; htif_fromhost = 0; timecmp = 0; cycles = 0 };
      console = record { uart_reg = λ i. 0; uart_skipped = 0; stderr = [] };
    } in
    let misa = write_csr state csr_misa (2 ^ 0 + 2 ^ 8 + 2 ^ 12 + 2 ^ 18 + 2 ^ 30) in
    write_csr misa csr_mhartid misa.mhartid

-- The words of the boot code, at the start of the low RAM; `q[i] = word` on a little-endian host.
unfoldable pub write_bootloader : MemoryMap → MemoryTarget → ℕ → Outcome MemoryMap
write_bootloader map ram fdt_addr =
    let q : ℕ → MemoryTarget =
      λ i. record ram { offset = ram.offset + bootloader_address + 4 * i } in
    write_case_word map (q 0) (sub32 (add32 0x297 ram_base_addr) 0x1000) >>= λ m0.
    write_case_word m0 (q 1) 0x597 >>= λ m1.
    write_case_word m1 (q 2) (add32 0x58593 (shl32 (sub32 fdt_addr 4) 20)) >>= λ m2.
    write_case_word m2 (q 3) 0xf1402573 >>= λ m3. write_case_word m3 (q 4) 0x00028067

-- The body of the loop of `run_linux`.
unfoldable pub linux_step : Environment → State → Outcome State
linux_step env state = emulate_op env state >>= λ state'.
    ok (record state' { vm = record (state'.vm) { cycles = state'.instruction_counter } })

-- The loop has no end: this is its state after a number of rounds.
unfoldable pub run_linux : ℕ → Environment → State → Outcome State
unfolding linux_step
run_linux zero env state = ok state
run_linux (suc rounds) env state = linux_step env state >>= λ state'. run_linux rounds env state'
