-- ===== src/Boot/Start.antt =====
-- What `run_linux` does before its loop.
pub mod Handover
pub mod Laws
use emuriscv.Base.{ℕ, Bool, List, Option, Outcome, ok, ◌>>=◌}
use emuriscv.Machine.{State}
use emuriscv.Memory.Map.{MemoryMap}
use emuriscv.Boot.{initialize_riscv_machine, initialize_state_linux, bootloader_address}
use emuriscv.Boot.Load.{load_bios_and_kernel}

-- The state with the loaded memory, at the boot code.
unfoldable pub at_bootloader : MemoryMap → State
unfolding initialize_state_linux
at_bootloader map = record (initialize_state_linux map) { pc = bootloader_address }

-- The symbols are not part of the state.
unfoldable pub start_linux : (ℕ → Bool) → Option (List ℕ) → Option (List ℕ) → Outcome State
unfolding at_bootloader
start_linux malloc bios_file kernel_file = initialize_riscv_machine malloc >>= λ mem_map.
    load_bios_and_kernel bios_file kernel_file mem_map >>= λ loaded. ok (at_bootloader loaded)
