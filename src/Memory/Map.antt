-- ===== src/Memory/Map.antt =====
-- memory_map.h and memory_map.c, and `get_phys_mem_range` of run_linux.c.
pub mod Laws
pub mod Bytes
use emuriscv.Base.{ℕ, ◌+◌, Bool, ◌&&◌, ltb, leb, if◌then◌else◌}
use emuriscv.Base.{List, [], ◌∷◌, ◌++◌, Option, none, some, length, u32}
use emuriscv.Base.{Outcome, ok, exit, undefined, ◌>>=◌}
use mathlib.Core.Option

-- Which pair of `read_func` and `write_func` a device range holds.
pub data Device : Type 0 where
  htif clint uart : Device

-- `is_ram` with `phys_mem_ptr`: a RAM range whose pointer is still null, one with the bytes at
-- the pointer, or a device range, whose `phys_mem_ptr` stays null.
pub data Backing : Type 0 where
  unallocated : Backing
  ram : (ℕ → ℕ) → Backing
  device : Device → Backing

pub record MemoryRange : Type 0 where
  pub address : ℕ
  pub size : ℕ
  pub backing : Backing

-- The first `n_phys_mem_range` entries of the array.
abbrev pub MemoryMap : Type 0
MemoryMap = List MemoryRange

abbrev pub phys_mem_range_max : ℕ
phys_mem_range_max = 32

abbrev pub exit_too_many_memory_ranges : ℕ
exit_too_many_memory_ranges = 0x13

abbrev pub exit_cannot_allocate_vm_memory : ℕ
exit_cannot_allocate_vm_memory = 0x14

unfoldable pub phys_mem_map_init : MemoryMap
phys_mem_map_init = []

-- There is no test of the number of ranges here: past the array the write is undefined.
unfoldable pub cpu_register_device : MemoryMap → ℕ → ℕ → Device → Outcome MemoryMap
cpu_register_device s addr size d =
    if ltb (length s) phys_mem_range_max
    then ok (s ++ (record { address = u32 addr; size = u32 size; backing = device d } ∷ []))
    else undefined

unfoldable pub register_ram_entry : MemoryMap → ℕ → ℕ → Backing → Outcome MemoryMap
register_ram_entry map base_addr size allocated =
    if ltb phys_mem_range_max (length map + 1)
    then exit exit_too_many_memory_ranges
    else ok (map ++ (record { address = base_addr; size = size; backing = allocated } ∷ []))

-- `malloc` says whether the host has that much memory. `mallocz` then clears it.
unfoldable pub cpu_register_ram : (ℕ → Bool) → MemoryMap → ℕ → ℕ → Outcome MemoryMap
unfolding register_ram_entry
cpu_register_ram malloc map base_addr size =
    register_ram_entry map base_addr size (if malloc size then ram (λ _. 0) else unallocated)
    >>= λ registered. if malloc size then ok registered else exit exit_cannot_allocate_vm_memory

unfoldable pub in_range : MemoryRange → ℕ → Bool
in_range range paddr = leb range.address paddr && ltb paddr (u32 (range.address + range.size))

-- The index of the first range that holds the address; `none` is the null pointer.
unfoldable pub get_phys_mem_range : MemoryMap → ℕ → Option ℕ
get_phys_mem_range [] paddr = none
get_phys_mem_range (range ∷ map) paddr =
    if in_range range paddr then some 0 else Option.map (λ i. i + 1) (get_phys_mem_range map paddr)
