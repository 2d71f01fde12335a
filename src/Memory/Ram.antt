-- ===== src/Memory/Ram.antt =====
-- `MemoryTarget` and the two routines of memory.c that move bytes, `read_common_ram` and
-- `write_common_ram`.
pub mod Bytes
pub mod RoundTrip
pub mod Laws
use emuriscv.Base.{ℕ, ◌+◌, bit_and, bit_or}
use emuriscv.Base.{ltb, ◌==◌, if◌then◌else◌, none, some}
use emuriscv.Base.{get_elem?, set, update, shl32, shr, Outcome, ok, exit, undefined, ◌>>=◌}
use emuriscv.Memory.Map.{MemoryMap, MemoryRange, ram, unallocated, device}

-- A pointer is kept as the index of its range and the offset from the range's first byte.
pub record MemoryTarget : Type 0 where
  pub range : ℕ
  pub offset : ℕ

abbrev pub size_byte : ℕ
size_byte = 0

abbrev pub size_half : ℕ
size_half = 1

abbrev pub size_word : ℕ
size_word = 2

abbrev pub exit_unsupported_read_size : ℕ
exit_unsupported_read_size = 0x11

abbrev pub exit_unsupported_write_size : ℕ
exit_unsupported_write_size = 0x12

-- `*p` for a byte pointer: a RAM byte inside its range. Past the end, and through the null
-- pointer of a range with no memory, it is undefined.
unfoldable pub load_from : MemoryRange → ℕ → Outcome ℕ
load_from range offset = elim range.backing [
  | unallocated ↦ undefined
  | ram bytes ↦ if ltb offset range.size then ok (bytes offset) else undefined
  | device d ↦ undefined
]

unfoldable pub store_to : MemoryRange → ℕ → ℕ → Outcome MemoryRange
store_to range offset value = elim range.backing [
  | unallocated ↦ undefined
  | ram bytes ↦
      if ltb offset range.size
      then ok (record range { backing = ram (update bytes offset value) })
      else undefined
  | device d ↦ undefined
]

unfoldable pub load_byte : MemoryMap → MemoryTarget → ℕ → Outcome ℕ
load_byte map target i = elim (get_elem? map target.range) [
  | none ↦ undefined
  | some range ↦ load_from range (target.offset + i)
]

unfoldable pub store_byte : MemoryMap → MemoryTarget → ℕ → ℕ → Outcome MemoryMap
store_byte map target i value = elim (get_elem? map target.range) [
  | none ↦ undefined
  | some range ↦
      store_to range (target.offset + i) value >>= λ range'. ok (set map target.range range')
]

unfoldable pub read_word_ram : MemoryMap → MemoryTarget → Outcome ℕ
read_word_ram map target = do
  b0 ← load_byte map target 0
  b1 ← load_byte map target 1
  b2 ← load_byte map target 2
  b3 ← load_byte map target 3
  ok (bit_or (bit_or (bit_or b0 (shl32 b1 8)) (shl32 b2 16)) (shl32 b3 24))

unfoldable pub read_half_ram : MemoryMap → MemoryTarget → Outcome ℕ
read_half_ram map target = do
  b0 ← load_byte map target 0
  b1 ← load_byte map target 1
  ok (bit_or b0 (shl32 b1 8))

unfoldable pub read_common_ram : MemoryMap → MemoryTarget → ℕ → Outcome ℕ
unfolding read_word_ram read_half_ram
read_common_ram map target size_log2 =
    if size_log2 == size_word
    then read_word_ram map target
    else if size_log2 == size_half
    then read_half_ram map target
    else if size_log2 == size_byte
    then load_byte map target 0
    else exit exit_unsupported_read_size

-- The cases of the `switch` fall through, from the widest to `SIZE_BYTE`.
unfoldable pub write_case_byte : MemoryMap → MemoryTarget → ℕ → Outcome MemoryMap
write_case_byte map target value = store_byte map target 0 (bit_and value 0xff)

unfoldable pub write_case_half : MemoryMap → MemoryTarget → ℕ → Outcome MemoryMap
unfolding write_case_byte
write_case_half map target value = do
  map' ← store_byte map target 1 (shr (bit_and value 0xff00) 8)
  write_case_byte map' target value

unfoldable pub write_case_word : MemoryMap → MemoryTarget → ℕ → Outcome MemoryMap
unfolding write_case_half
write_case_word map target value = do
  map' ← store_byte map target 3 (shr (bit_and value 0xff000000) 24)
  map'' ← store_byte map' target 2 (shr (bit_and value 0xff0000) 16)
  write_case_half map'' target value

unfoldable pub write_common_ram : MemoryMap → MemoryTarget → ℕ → ℕ → Outcome MemoryMap
unfolding write_case_word write_case_half write_case_byte
write_common_ram map target value size_log2 =
    if size_log2 == size_word
    then write_case_word map target value
    else if size_log2 == size_half
    then write_case_half map target value
    else if size_log2 == size_byte
    then write_case_byte map target value
    else exit exit_unsupported_write_size
