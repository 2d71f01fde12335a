-- ===== src/Memory/Access.antt =====
-- The loads and stores of memory.c that the CPU calls, on virtual addresses.
pub mod Laws
use emuriscv.Base.{ℕ, ◌-◌, ◌^◌, bit_and, bit_or, ◌==◌, if◌then◌else◌, u8, u16}
use emuriscv.Base.{none, some, get_elem?, Outcome, ok, undefined, ◌>>=◌}
use emuriscv.Machine.{State, Environment}
use emuriscv.Memory.Map.{unallocated, ram, device}
use emuriscv.Memory.Ram.{MemoryTarget, read_common_ram, write_common_ram}
use emuriscv.Memory.Ram.{size_byte, size_half, size_word}
use emuriscv.Memory.Translate.{load, store, get_memory_target}
use emuriscv.Memory.Translate.{found, faulted, no_range}
use emuriscv.Device.{read_func, write_func}

-- PAGE_FAULT, -1, as the word that `read_common` returns.
abbrev pub page_fault_word : ℕ
page_fault_word = 2 ^ 32 - 1

unfoldable pub read_target : State → MemoryTarget → ℕ → Outcome ℕ
read_target state target size_log2 = elim (get_elem? state.memory_map target.range) [
  | none ↦ undefined
  | some range ↦ elim range.backing [
    | unallocated ↦ read_common_ram state.memory_map target size_log2
    | ram bytes ↦ read_common_ram state.memory_map target size_log2
    | device d ↦ read_func d state target.offset
  ]
]

unfoldable pub write_target : Environment → State → MemoryTarget → ℕ → ℕ → Outcome State
write_target env state target value size_log2 = elim (get_elem? state.memory_map target.range) [
  | none ↦ undefined
  | some range ↦ elim range.backing [
    | unallocated ↦ write_common_ram state.memory_map target value size_log2 >>= λ map.
        ok (record state { memory_map = map })
    | ram bytes ↦ write_common_ram state.memory_map target value size_log2 >>= λ map.
        ok (record state { memory_map = map })
    | device d ↦ write_func env d state target.offset value
  ]
]

-- Where no range holds the address, `target.range->is_ram` goes through a null pointer.
unfoldable pub write_common : Environment → State → ℕ → ℕ → ℕ → Outcome State
unfolding write_target
write_common env state address value size_log2 =
    get_memory_target state address store >>= λ (state', status). elim status [
      | found target ↦ write_target env state' target value size_log2
      | faulted ↦ ok state'
      | no_range ↦ undefined
    ]

unfoldable pub read_common : State → ℕ → ℕ → Outcome (State × ℕ)
unfolding read_target
read_common state address size_log2 = get_memory_target state address load >>= λ (state', status).
    elim status [
      | found target ↦ read_target state' target size_log2 >>= λ value. ok (state', value)
      | faulted ↦ ok (state', page_fault_word)
      | no_range ↦ undefined
    ]

unfoldable pub write_word : Environment → State → ℕ → ℕ → Outcome State
write_word env state address value = write_common env state address value size_word

unfoldable pub write_halfword : Environment → State → ℕ → ℕ → Outcome State
write_halfword env state address value = write_common env state address (u16 value) size_half

unfoldable pub write_byte : Environment → State → ℕ → ℕ → Outcome State
write_byte env state address value = write_common env state address (u8 value) size_byte

unfoldable pub read_word : State → ℕ → Outcome (State × ℕ)
read_word state address = read_common state address size_word

unfoldable pub extend_halfword : ℕ → ℕ
extend_halfword value = if bit_and value 0x8000 == 0x8000 then bit_or value 0xffff0000 else value

unfoldable pub read_halfword_signed : State → ℕ → Outcome (State × ℕ)
unfolding extend_halfword
read_halfword_signed state address =
    read_common state address size_half >>= λ (state', value). ok (state', extend_halfword value)

unfoldable pub read_halfword_unsigned : State → ℕ → Outcome (State × ℕ)
read_halfword_unsigned state address = read_common state address size_half

unfoldable pub extend_byte : ℕ → ℕ
extend_byte value = if bit_and value 0x80 == 0x80 then bit_or value 0xffffff00 else value

unfoldable pub read_byte_signed : State → ℕ → Outcome (State × ℕ)
unfolding extend_byte
read_byte_signed state address =
    read_common state address size_byte >>= λ (state', value). ok (state', extend_byte value)

unfoldable pub read_byte_unsigned : State → ℕ → Outcome (State × ℕ)
read_byte_unsigned state address = read_common state address size_byte
