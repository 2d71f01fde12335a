-- ===== src/Tests/Machines.antt =====
-- The machines that the tests run on.
use emuriscv.Base.{ℕ, ◌==◌, if◌then◌else◌, [], ◌∷◌, update, false, ok}
use emuriscv.Machine.{State, Environment, running, priv_m, priv_s}
use emuriscv.Memory.Map.{MemoryMap, MemoryRange, ram, device, clint}
use emuriscv.Memory.Translate.{csr_satp}

abbrev pub quiet : Environment
quiet = record { reset_mip = λ mask state. state; trace_ecall = λ state. ok state }

abbrev pub zeros : ℕ → ℕ
zeros i = 0

abbrev pub ram_base : ℕ
ram_base = 0x80000000

-- 64 KiB of memory with these bytes.
abbrev pub memory_range : (ℕ → ℕ) → MemoryRange
memory_range bytes = record { address = 0x80000000; size = 0x10000; backing = ram bytes }

abbrev pub clint_range : MemoryRange
clint_range = record { address = 0x2000000; size = 0xc0000; backing = device clint }

abbrev pub memory : (ℕ → ℕ) → MemoryMap
memory bytes = clint_range ∷ memory_range bytes ∷ []

-- A machine with this memory, its registers zero and machine mode.
abbrev pub machine : (ℕ → ℕ) → State
machine bytes = record {
  pc = 0x80000004;
  x = zeros;
  csr = zeros;
  mhartid = 0;
  status = running;
  memory_map = memory bytes;
  instruction_counter = 0;
  pending_tval = 0;
  pending_exception = 0;
  has_pending_exception = false;
  privilege = priv_m;
  load_reservation = 0;
  pc_history = zeros;
  vm = record { htif_tohost = 0; htif_fromhost = 0; timecmp = 0; cycles = 0 };
  console = record { uart_reg = zeros; uart_skipped = 0; stderr = [] };
}

-- A page table at the start of the memory. Entry 0x200 of the root is a leaf for four megabytes at
-- 0x80000000; entry 1 points to the second page, whose entry 0 points on to a third.
abbrev pub tables : ℕ → ℕ
tables i =
    if i == 0x800
    then 0xcf
    else if i == 0x803
    then 0x20
    else if i == 0x4
    then 0x01
    else if i == 0x5
    then 0x04
    else if i == 0x7
    then 0x20
    else if i == 0x1000
    then 0x01
    else if i == 0x1001
    then 0x08
    else if i == 0x1003
    then 0x20
    else 0

-- Supervisor mode, with that table as the root.
abbrev pub paged : State
paged = record (machine tables) { privilege = priv_s; csr = update zeros csr_satp 0x80080000 }
