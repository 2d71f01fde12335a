-- ===== src/Boot/Ranges.antt =====
-- The address map of the machine.
use emuriscv.Base.{
  ℕ, ◌+◌, ◌≡◌, refl, arith, Bool, true, Option, some, none, ok, ltb, if◌then◌else◌, [], ◌∷◌,
}
use emuriscv.Memory.Map.{MemoryMap, ram, device, htif, clint, uart}
use emuriscv.Memory.Map.{get_phys_mem_range, in_range, cpu_register_ram, cpu_register_device}
use emuriscv.Memory.Map.{phys_mem_map_init, register_ram_entry}
use emuriscv.Boot.{initialize_riscv_machine, ram_base_addr, ram_size, low_ram_size, htif_base_addr}
use emuriscv.Boot.{htif_size, clint_base_addr, clint_size, uart_base_addr, uart_size}

-- The range of each address, from the lowest address up.
abbrev pub address_map : ℕ → Option ℕ
address_map a =
    if ltb a low_ram_size
    then some 1
    else if ltb a clint_base_addr
    then none
    else if ltb a (clint_base_addr + clint_size)
    then some 3
    else if ltb a uart_base_addr
    then none
    else if ltb a (uart_base_addr + uart_size)
    then some 4
    else if ltb a htif_base_addr
    then none
    else if ltb a (htif_base_addr + htif_size)
    then some 2
    else if ltb a ram_base_addr
    then none
    else if ltb a (ram_base_addr + ram_size)
    then some 0
    else none

abbrev pub cleared : ℕ → ℕ
cleared i = 0

-- The ranges of the machine, with these bytes in the RAM and in the low RAM.
abbrev pub ranges : (ℕ → ℕ) → (ℕ → ℕ) → MemoryMap
ranges high low =
    record { address = ram_base_addr; size = ram_size; backing = ram high }
    ∷ record { address = 0; size = low_ram_size; backing = ram low }
    ∷ record { address = htif_base_addr; size = htif_size; backing = device htif }
    ∷ record { address = clint_base_addr; size = clint_size; backing = device clint }
    ∷ record { address = uart_base_addr; size = uart_size; backing = device uart }
    ∷ []

found : (high low : ℕ → ℕ) (a : ℕ) → get_phys_mem_range (ranges high low) a ≡ address_map a
unfolding get_phys_mem_range in_range
found high low a = ground arith

pub initialize_riscv_machine-eq-ok :
    (malloc : ℕ → Bool)
    → malloc ram_size ≡ true
    → malloc low_ram_size ≡ true
    → initialize_riscv_machine malloc ≡ ok (ranges cleared cleared)
unfolding initialize_riscv_machine cpu_register_ram cpu_register_device register_ram_entry
    phys_mem_map_init
initialize_riscv_machine-eq-ok malloc big low = rw (big, low) refl

-- Where the host has the memory, the set-up of the machine succeeds, and for every address
-- `get_phys_mem_range` then gives the range of the RAM, of the low RAM or of the device that has the
-- address, and nothing for an address of none of them.
pub initialize_riscv_machine_lem :
    (malloc : ℕ → Bool) (a : ℕ)
    → malloc ram_size ≡ true
    → malloc low_ram_size ≡ true
    → (map : MemoryMap) × (initialize_riscv_machine malloc ≡ ok map)
      × (get_phys_mem_range map a ≡ address_map a)
initialize_riscv_machine_lem malloc a big low =
    (ranges cleared cleared, initialize_riscv_machine-eq-ok malloc big low, found cleared cleared a)
