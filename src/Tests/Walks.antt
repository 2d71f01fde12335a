-- ===== src/Tests/Walks.antt =====
-- The page walk on the tables of `paged`.
use emuriscv.Base.{◌≡◌, refl, arith, ok, undefined}
use emuriscv.Machine.{read_csr}
use emuriscv.Memory.Map.{MemoryMap, get_phys_mem_range, in_range}
use emuriscv.Memory.Ram.{read_word_ram, read_common_ram, load_byte, load_from}
use emuriscv.Memory.Translate.{get_memory_mode, read_word_physical, get_memory_target_physical}
use emuriscv.Memory.Translate.{get_memory_target}
use emuriscv.Memory.Translate.{load, store, fetch, translated, page_fault, not_stored}
use emuriscv.Memory.Translate.Walk.{Walk, out_of_levels, invalid, leaf, pointer}
use emuriscv.Memory.Translate.Outcomes.{IsPaged, root_table}
use emuriscv.Memory.Translate.Outcomes.{
  HasFaulted, get_memory_target-page_fault, get_memory_target-not_stored,
}
use emuriscv.Base.{inl, inr, bit_or, sub32}
use emuriscv.Memory.Translate.{found}
use emuriscv.Memory.Translate.Sv32.{
  Sv32, AllowsMode, IsLeaf, accessed_dirty, get_memory_target-Sv32,
}
use emuriscv.Tests.Machines.{paged, memory_range, tables}

paged-IsPaged : IsPaged paged
unfolding get_memory_mode read_csr
paged-IsPaged = record { below_m = λ e. absurd (omega (arith, e)); sv32 = refl }

large_page : Walk paged 0x80001234 2 (root_table paged) (translated 0x80001234)
unfolding read_csr read_word_physical get_memory_target_physical get_phys_mem_range in_range
    read_common_ram read_word_ram load_from load_byte
large_page =
    leaf 1 0x80000000 0x200000cf refl refl (λ e. absurd (omega (arith, e)))
      (λ r. absurd (omega (arith, r))) 0x200 0x1234 refl refl

unmapped : Walk paged 0xc0001234 2 (root_table paged) page_fault
unfolding read_csr read_word_physical get_memory_target_physical get_phys_mem_range in_range
    read_common_ram read_word_ram load_from load_byte
unmapped = invalid 1 0x80000000 0 refl refl

endless : Walk paged 0x00400abc 2 (root_table paged) not_stored
unfolding read_csr read_word_physical get_memory_target_physical get_phys_mem_range in_range
    read_common_ram read_word_ram load_from load_byte
endless =
    pointer 1 0x80000000 0x20000401 not_stored refl refl refl
      (pointer 0 0x80001000 0x20000801 not_stored refl refl refl (out_of_levels 0x80002000))

get_memory_target-page_fault_example :
    HasFaulted paged 0xc0001234 fetch 12
    × HasFaulted paged 0xc0001234 load 13
    × HasFaulted paged 0xc0001234 store 15
get_memory_target-page_fault_example =
    get_memory_target-page_fault paged 0xc0001234 paged-IsPaged unmapped

get_memory_target-not_stored_example : get_memory_target paged 0x00400abc fetch ≡ undefined
get_memory_target-not_stored_example =
    get_memory_target-not_stored paged 0x00400abc fetch paged-IsPaged endless

store-AllowsMode : AllowsMode paged store 0x200000cf
store-AllowsMode = inr (refl, inl refl)

writable-IsLeaf : IsLeaf paged store 1 0x200000cf
writable-IsLeaf = record {
  valid = refl;
  points = inl refl;
  access = refl;
  mode = store-AllowsMode;
  aligned = refl;
  fits = omega arith;
}

store-Sv32 : Sv32 paged 0x80001234 store 1 (root_table paged) 0x80000800 0x200000cf 0x80001234
unfolding read_csr read_word_physical get_memory_target_physical get_phys_mem_range in_range
    read_common_ram read_word_ram load_from load_byte
store-Sv32 = Sv32.leaf 1 0x80000000 0x200000cf 0x80001234 refl writable-IsLeaf refl

-- A store to the page of four megabytes.
get_memory_target-Sv32_example :
    (map : MemoryMap) × (get_memory_target paged 0x80001234 store
      ≡ ok (
        record paged { memory_map = map },
        found (record { range = 1; offset = sub32 0x80001234 0x80000000 }),
      ))
    × (read_word_physical (record paged { memory_map = map }) 0x80000800
        ≡ ok (bit_or 0x200000cf (accessed_dirty store)))
unfolding get_phys_mem_range in_range
get_memory_target-Sv32_example =
    get_memory_target-Sv32 paged 0x80001234 store 0x80000800 0x200000cf 0x80001234 1
      (memory_range tables) paged-IsPaged store-Sv32 refl refl
