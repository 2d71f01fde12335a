-- ===== src/Tests/Memory.antt =====
-- The memory map and loads after stores on the memory of `machine`.
use emuriscv.Base.{ℕ, ◌%◌, ◌^◌, ◌≡◌, inl, inr, refl, arith, ok}
use emuriscv.Memory.Map.{MemoryMap, get_phys_mem_range, in_range}
use emuriscv.Memory.Ram.{MemoryTarget, load_byte, read_common_ram, write_common_ram}
use emuriscv.Memory.Ram.RoundTrip.{IsBacked}
use emuriscv.Memory.Ram.Laws.{read_common_ram-write_common_ram}
use emuriscv.Memory.Translate.{get_memory_target_physical}
use emuriscv.Memory.Translate.Direct.{IsDirect}
use emuriscv.Memory.Access.{read_common, write_common}
use emuriscv.Memory.Access.Laws.{read_common-write_common}
use emuriscv.Tests.Machines.{quiet, zeros, machine, memory, memory_range}

abbrev at_0x10 : MemoryTarget
at_0x10 = record { range = 1; offset = 0x10 }

backed :
    (size : ℕ) → size ≡ 2 → IsBacked (memory zeros) at_0x10 (memory_range zeros) zeros (2 ^ size)
backed size e = record { there = refl; is_ram = refl; inside = rw e (omega arith) }

read_common_ram-write_common_ram_example :
    (map : MemoryMap) × (write_common_ram (memory zeros) at_0x10 0x12345678 2 ≡ ok map)
    × (read_common_ram map at_0x10 2 ≡ ok (0x12345678 % 2 ^ 32))
    × (load_byte map at_0x10 4 ≡ load_byte (memory zeros) at_0x10 4)
read_common_ram-write_common_ram_example =
    read_common_ram-write_common_ram 2 0x12345678 at_0x10 4 (omega arith) (omega arith)
      (backed 2 refl) (inr (inr (omega arith)))

direct : IsDirect (machine zeros)
direct = inl refl

read_common-write_common_example :
    (map : MemoryMap) × (write_common quiet (machine zeros) 0x80000010 0x12345678 2
      ≡ ok (record (machine zeros) { memory_map = map }))
    × (read_common (record (machine zeros) { memory_map = map }) 0x80000010 2
        ≡ ok (record (machine zeros) { memory_map = map }, 0x12345678 % 2 ^ 32))
unfolding get_memory_target_physical get_phys_mem_range in_range
read_common-write_common_example =
    read_common-write_common quiet (machine zeros) 0x80000010 0x12345678 2 {target = at_0x10}
      (omega arith) (omega arith) direct refl (backed 2 refl)
