-- ===== src/Memory/Translate.antt =====
-- Address translation of memory.c: `get_memory_target_physical`, the physical word accesses,
-- `translate_address` and `get_memory_target`.
pub mod Direct
pub mod Walk
pub mod Writable
pub mod Update
pub mod Sv32
pub mod Refine
pub mod Outcomes
use emuriscv.Base.{ℕ, zero, suc, ◌+◌, ◌-◌, ◌*◌, ◌^◌, bit_and, bit_or, true}
use emuriscv.Base.{◌==◌, ◌||◌, if◌then◌else◌, Option, none, some, get_elem?, u32, shl32, shr, not32}
use emuriscv.Base.{Outcome, ok, exit, undefined, ◌>>=◌, sub32}
use emuriscv.Machine.{State, read_csr, priv_m}
use emuriscv.Memory.Map.{get_phys_mem_range}
use emuriscv.Memory.Ram.{MemoryTarget, read_common_ram, write_common_ram, size_word}

pub data AccessType : Type 0 where
  load store fetch : AccessType

abbrev pub csr_satp : ℕ
csr_satp = 0x180

abbrev pub exit_invalid_satp_mode : ℕ
exit_invalid_satp_mode = 0x10

-- `none` is the -2 of an address that no range holds.
unfoldable pub get_memory_target_physical : State → ℕ → Option MemoryTarget
get_memory_target_physical state physical_address =
    elim (get_phys_mem_range state.memory_map physical_address) [
      | none ↦ none
      | some i ↦ elim (get_elem? state.memory_map i) [
        | none ↦ none
        | some range ↦ some (record { range = i; offset = sub32 physical_address range.address })
      ]
    ]

-- Both physical accesses ignore the result code: with no range they go through a pointer that
-- was never set.
unfoldable pub read_word_physical : State → ℕ → Outcome ℕ
read_word_physical state physical_address =
    elim (get_memory_target_physical state physical_address) [
      | none ↦ undefined
      | some target ↦ read_common_ram state.memory_map target size_word
    ]

unfoldable pub write_word_physical : State → ℕ → ℕ → Outcome State
write_word_physical state physical_address value =
    elim (get_memory_target_physical state physical_address) [
      | none ↦ undefined
      | some target ↦ write_common_ram state.memory_map target value size_word >>= λ map.
          ok (record state { memory_map = map })
    ]

unfoldable pub get_memory_mode : State → ℕ
get_memory_mode state = shr (read_csr state csr_satp) 31

-- TRANSLATE_OK with the address stored, PAGE_FAULT, or TRANSLATE_OK with nothing stored.
pub data Translation : Type 0 where
  translated : ℕ → Translation
  page_fault : Translation
  not_stored : Translation

abbrev pub pte_w : ℕ
pte_w = 2

abbrev pub pte_xw : ℕ
pte_xw = 6

-- _PAGE_ACCESSED, and _PAGE_DIRTY on a store.
unfoldable pub accessed_or_dirty_flags : AccessType → ℕ
accessed_or_dirty_flags load = 64
accessed_or_dirty_flags store = 192
accessed_or_dirty_flags fetch = 64

-- `pte |= accessed_or_dirty_flags` and the write back, where a flag is missing.
unfoldable pub update_pte_flags : State → ℕ → ℕ → AccessType → Outcome State
unfolding accessed_or_dirty_flags
update_pte_flags state pte_addr pte access_type =
    let flags = accessed_or_dirty_flags access_type in
    if bit_and pte flags == flags
    then ok state
    else write_word_physical state pte_addr (bit_or pte flags)

unfoldable pub leaf_address : ℕ → ℕ → ℕ → ℕ
leaf_address virtual_address paddr vaddr_shift =
    let vaddr_mask = 2 ^ vaddr_shift - 1 in
    bit_or (bit_and virtual_address vaddr_mask) (bit_and paddr (not32 vaddr_mask))

-- The loop over the levels. The first argument is the number of rounds left, `levels - i`.
unfoldable pub translate_levels : ℕ → State → ℕ → AccessType → ℕ → Outcome (State × Translation)
translate_levels zero state virtual_address access_type pte_addr = ok (state, not_stored)
translate_levels (suc left) state virtual_address access_type pte_addr =
    let vaddr_shift = 12 + 10 * left in
    let pte_idx = bit_and (shr virtual_address vaddr_shift) 0x3ff in
    let address = u32 (pte_addr + pte_idx * 4) in
    read_word_physical state address >>= λ pte.
    let paddr = shl32 (shr pte 10) 12 in
    let xwr = bit_and (shr pte 1) 7 in
    let next_level = translate_levels left state virtual_address access_type paddr in
    if bit_and pte 1 == 0
    then ok (state, page_fault)
    else if xwr == 0
    then next_level
    else if xwr == pte_w || xwr == pte_xw
    then ok (state, page_fault)
    else update_pte_flags state address pte access_type >>= λ state'.
        ok (state', translated (leaf_address virtual_address paddr vaddr_shift))

unfoldable pub translate_address : State → ℕ → AccessType → Outcome (State × Translation)
unfolding get_memory_mode
translate_address state virtual_address access_type =
    if state.privilege == priv_m
    then ok (state, translated virtual_address)
    else if get_memory_mode state == 0
    then ok (state, translated virtual_address)
    else if get_memory_mode state == 1
    then translate_levels 2 state virtual_address access_type
        (shl32 (bit_and (read_csr state csr_satp) (2 ^ 22 - 1)) 12)
    else exit exit_invalid_satp_mode

-- The CAUSE_ value of a page fault.
unfoldable pub page_fault_cause : AccessType → ℕ
page_fault_cause load = 0xd
page_fault_cause store = 0xf
page_fault_cause fetch = 0xc

-- TRANSLATE_OK, PAGE_FAULT and the -2 of an address that no range holds.
pub data Target : Type 0 where
  found : MemoryTarget → Target
  faulted : Target
  no_range : Target

unfoldable pub raise_page_fault : State → ℕ → AccessType → State
unfolding page_fault_cause
raise_page_fault state virtual_address access_type = record state {
  pending_exception = page_fault_cause access_type;
  pending_tval = virtual_address;
  has_pending_exception = true;
}

unfoldable pub physical_target : State → ℕ → State × Target
physical_target state physical_address = elim (get_memory_target_physical state physical_address) [
  | none ↦ (state, no_range)
  | some target ↦ (state, found target)
]

-- With no address stored, the code goes on with an uninitialised variable.
unfoldable pub get_memory_target : State → ℕ → AccessType → Outcome (State × Target)
unfolding raise_page_fault physical_target
get_memory_target state virtual_address access_type =
    translate_address state virtual_address access_type >>= λ (state', result). elim result [
      | translated physical_address ↦ ok (physical_target state' physical_address)
      | page_fault ↦ ok (raise_page_fault state' virtual_address access_type, faulted)
      | not_stored ↦ undefined
    ]
