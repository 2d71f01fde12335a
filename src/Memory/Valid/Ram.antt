-- ===== src/Memory/Valid/Ram.antt =====
-- The bytes of RAM: what is read from them, and what is written into them.
use emuriscv.Base.{
  ℕ, ◌+◌, arith, bit_and, bit_or, shl32, ltb, get_elem?, set, update, IsWord, if◌then◌else◌,
}
use emuriscv.Base.{
  Holds, Holds-ok, Holds-undefined, Holds-exit, Holds-if, Holds-bind, Holds-option, ok, undefined,
  ◌>>=◌,
}
use emuriscv.Bits.{bit_and_mask}
use emuriscv.Bits.Bounds.{bit_or-lt}
use emuriscv.Memory.Map.{MemoryMap, MemoryRange, Backing, unallocated, ram, device}
use emuriscv.Memory.Map.Bytes.{IsByte, HasBytes, IsByteMap, get_elem?-HasBytes, set-IsByteMap}
use emuriscv.Memory.Ram.{
  MemoryTarget, load_from, store_to, load_byte, store_byte, read_word_ram, read_half_ram,
  read_common_ram,
}
use emuriscv.Memory.Ram.{write_case_byte, write_case_half, write_case_word, write_common_ram}
use emuriscv.Memory.Ram.Bytes.{byte_1, byte_2, byte_3}

backing-IsByte :
    (backing : Backing) (offset size : ℕ)
    → HasBytes backing
    → Holds IsByte (elim backing [
      | unallocated ↦ undefined
      | ram bytes ↦ if ltb offset size then ok (bytes offset) else undefined
      | device d ↦ undefined
    ])
backing-IsByte unallocated offset size h = Holds-undefined
backing-IsByte (ram bytes) offset size h = Holds-if _ _ _ (Holds-ok _ (h offset)) Holds-undefined
backing-IsByte (device d) offset size h = Holds-undefined

load_from-IsByte :
    (range : MemoryRange) (offset : ℕ)
    → HasBytes range.backing
    → Holds IsByte (load_from range offset)
unfolding load_from
load_from-IsByte range offset h = backing-IsByte range.backing offset range.size h

update-IsByte :
    (f : ℕ → ℕ) (i v : ℕ) → ((j : ℕ) → IsByte (f j)) → IsByte v → (j : ℕ) → IsByte (update f i v j)
update-IsByte f i v all fits j = ground (arith, all j)

abbrev RangeHasBytes : MemoryRange → Type 0
RangeHasBytes range = HasBytes range.backing

store_backing-HasBytes :
    (backing : Backing) (range : MemoryRange) (offset v : ℕ)
    → HasBytes backing
    → IsByte v
    → Holds RangeHasBytes (elim backing [
      | unallocated ↦ undefined
      | ram bytes ↦
          if ltb offset range.size
          then ok (record range { backing = ram (update bytes offset v) })
          else undefined
      | device d ↦ undefined
    ])
store_backing-HasBytes unallocated range offset v h fits = Holds-undefined
store_backing-HasBytes (ram bytes) range offset v h fits =
    Holds-if _ _ _ (Holds-ok _ (update-IsByte bytes offset v h fits)) Holds-undefined
store_backing-HasBytes (device d) range offset v h fits = Holds-undefined

store_to-HasBytes :
    (range : MemoryRange) (offset v : ℕ)
    → HasBytes range.backing
    → IsByte v
    → Holds RangeHasBytes (store_to range offset v)
unfolding store_to
store_to-HasBytes range offset v h fits = store_backing-HasBytes range.backing range offset v h fits

pub load_byte-IsByte :
    (map : MemoryMap) (target : MemoryTarget) (i : ℕ)
    → IsByteMap map
    → Holds IsByte (load_byte map target i)
unfolding load_byte
load_byte-IsByte map target i h =
    Holds-option (get_elem? map target.range) _ (λ range. load_from range (target.offset + i))
      Holds-undefined (λ range e. load_from-IsByte range _ (get_elem?-HasBytes map _ range h e))

store_byte-IsByteMap :
    (map : MemoryMap) (target : MemoryTarget) (i v : ℕ)
    → IsByteMap map
    → IsByte v
    → Holds IsByteMap (store_byte map target i v)
unfolding store_byte
store_byte-IsByteMap map target i v h fits =
    Holds-option (get_elem? map target.range) _
      (λ range. store_to range (target.offset + i) v >>= λ range'. ok (set map target.range range'))
      Holds-undefined
      (λ range e.
        Holds-bind _ _
          (store_to-HasBytes range (target.offset + i) v (get_elem?-HasBytes map _ range h e) fits)
          (λ range' h'. Holds-ok _ (set-IsByteMap map _ range' h h')))

bit_and-IsByte : (v : ℕ) → IsByte (bit_and v 0xff)
bit_and-IsByte v = omega (arith, bit_and_mask 8 v)

write_case_byte-IsByteMap :
    (map : MemoryMap) (target : MemoryTarget) (v : ℕ)
    → IsByteMap map
    → Holds IsByteMap (write_case_byte map target v)
unfolding write_case_byte
write_case_byte-IsByteMap map target v h = store_byte-IsByteMap map target 0 _ h (bit_and-IsByte v)

write_case_half-IsByteMap :
    (map : MemoryMap) (target : MemoryTarget) (v : ℕ)
    → IsByteMap map
    → Holds IsByteMap (write_case_half map target v)
unfolding write_case_half
write_case_half-IsByteMap map target v h =
    Holds-bind _ _ (store_byte-IsByteMap map target 1 _ h (omega (arith, byte_1 v)))
      (λ map' h'. write_case_byte-IsByteMap map' target v h')

pub write_case_word-IsByteMap :
    (map : MemoryMap) (target : MemoryTarget) (v : ℕ)
    → IsByteMap map
    → Holds IsByteMap (write_case_word map target v)
unfolding write_case_word
write_case_word-IsByteMap map target v h =
    Holds-bind _ _ (store_byte-IsByteMap map target 3 _ h (omega (arith, byte_3 v))) (λ map' h'.
      Holds-bind _ _ (store_byte-IsByteMap map' target 2 _ h' (omega (arith, byte_2 v)))
        (λ map'' h''. write_case_half-IsByteMap map'' target v h''))

pub write_common_ram-IsByteMap :
    (map : MemoryMap) (target : MemoryTarget) (v size_log2 : ℕ)
    → IsByteMap map
    → Holds IsByteMap (write_common_ram map target v size_log2)
unfolding write_common_ram
write_common_ram-IsByteMap map target v size_log2 h =
    Holds-if _ _ _ (write_case_word-IsByteMap map target v h) (
      Holds-if _ _ _ (write_case_half-IsByteMap map target v h)
        (Holds-if _ _ _ (write_case_byte-IsByteMap map target v h) (Holds-exit _)))

byte_word : (b : ℕ) → IsByte b → IsWord b
byte_word b h = omega arith

joined_word :
    (b0 b1 b2 b3 : ℕ)
    → IsByte b0
    → IsWord (bit_or (bit_or (bit_or b0 (shl32 b1 8)) (shl32 b2 16)) (shl32 b3 24))
joined_word b0 b1 b2 b3 h =
    bit_or-lt 32 _ _
      (bit_or-lt 32 _ _ (bit_or-lt 32 _ _ (byte_word b0 h) (omega arith)) (omega arith))
      (omega arith)

pub read_word_ram-IsWord :
    (map : MemoryMap) (target : MemoryTarget)
    → IsByteMap map
    → Holds IsWord (read_word_ram map target)
unfolding read_word_ram
read_word_ram-IsWord map target h = Holds-bind _ _ (load_byte-IsByte map target 0 h) (λ b0 h0.
    Holds-bind _ _ (load_byte-IsByte map target 1 h) (λ b1 h1.
      Holds-bind _ _ (load_byte-IsByte map target 2 h) (λ b2 h2.
        Holds-bind _ _ (load_byte-IsByte map target 3 h)
          (λ b3 h3. Holds-ok _ (joined_word b0 b1 b2 b3 h0)))))

read_half_ram-IsWord :
    (map : MemoryMap) (target : MemoryTarget)
    → IsByteMap map
    → Holds IsWord (read_half_ram map target)
unfolding read_half_ram
read_half_ram-IsWord map target h = Holds-bind _ _ (load_byte-IsByte map target 0 h) (λ b0 h0.
    Holds-bind _ _ (load_byte-IsByte map target 1 h)
      (λ b1 h1. Holds-ok _ (bit_or-lt 32 _ _ (byte_word b0 h0) (omega arith))))

read_byte_ram-IsWord :
    (map : MemoryMap) (target : MemoryTarget)
    → IsByteMap map
    → Holds IsWord (load_byte map target 0)
read_byte_ram-IsWord map target h = record {
  at = λ b e. byte_word b ((load_byte-IsByte map target 0 h).at b e);
}

pub read_common_ram-IsWord :
    (map : MemoryMap) (target : MemoryTarget) (size_log2 : ℕ)
    → IsByteMap map
    → Holds IsWord (read_common_ram map target size_log2)
unfolding read_common_ram
read_common_ram-IsWord map target size_log2 h = Holds-if _ _ _ (read_word_ram-IsWord map target h) (
    Holds-if _ _ _ (read_half_ram-IsWord map target h)
      (Holds-if _ _ _ (read_byte_ram-IsWord map target h) (Holds-exit _)))
