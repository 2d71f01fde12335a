-- ===== src/Memory/Valid/Access.antt =====
-- The loads and stores on virtual addresses.
use emuriscv.Base.{
  ℕ, arith, bit_and, bit_or, IsWord, if◌then◌else◌, ◌==◌, u8, u16, Bool, true, false, get_elem?,
}
use emuriscv.Base.{Holds, Holds-ok, Holds-undefined, Holds-bind, Holds-option, ok, undefined, ◌>>=◌}
use emuriscv.Bits.Bounds.{bit_or-lt}
use emuriscv.Machine.{State, Environment}
use emuriscv.Machine.Valid.{IsValid, IsValidWith, KeepsValid}
use emuriscv.Memory.Map.{MemoryRange, Backing, unallocated, ram, device}
use emuriscv.Memory.Ram.{MemoryTarget, read_common_ram, write_common_ram}
use emuriscv.Memory.Translate.{load, store, Target, found, faulted, no_range}
use emuriscv.Memory.Access.{
  page_fault_word, read_target, write_target, read_common, write_common, write_word, write_halfword,
  write_byte, read_word, read_halfword_signed, read_halfword_unsigned, read_byte_signed,
  read_byte_unsigned, extend_halfword, extend_byte,
}
use emuriscv.Device.{read_func, write_func}
use emuriscv.Memory.Valid.Ram.{read_common_ram-IsWord, write_common_ram-IsByteMap}
use emuriscv.Memory.Valid.Devices.{read_func-IsWord, write_func-IsValid}
use emuriscv.Memory.Valid.Translate.{memory_map-IsValid, get_memory_target-IsValid}

read_backing-IsWord :
    (backing : Backing) (s : State) (target : MemoryTarget) (size_log2 : ℕ)
    → IsValid s
    → Holds IsWord (elim backing [
      | unallocated ↦ read_common_ram s.memory_map target size_log2
      | ram bytes ↦ read_common_ram s.memory_map target size_log2
      | device d ↦ read_func d s target.offset
    ])
read_backing-IsWord unallocated s target size h =
    read_common_ram-IsWord s.memory_map target size h.bytes
read_backing-IsWord (ram bytes) s target size h =
    read_common_ram-IsWord s.memory_map target size h.bytes
read_backing-IsWord (device d) s target size h = read_func-IsWord d s target.offset h

read_target-IsWord :
    (s : State) (target : MemoryTarget) (size_log2 : ℕ)
    → IsValid s
    → Holds IsWord (read_target s target size_log2)
unfolding read_target
read_target-IsWord s target size h =
    Holds-option (get_elem? s.memory_map target.range) undefined
      (λ (range : MemoryRange). elim range.backing [
        | unallocated ↦ read_common_ram s.memory_map target size
        | ram bytes ↦ read_common_ram s.memory_map target size
        | device d ↦ read_func d s target.offset
      ])
      Holds-undefined (λ range e. read_backing-IsWord range.backing s target size h)

write_ram-IsValid :
    (s : State) (target : MemoryTarget) (v size : ℕ)
    → IsValid s
    → Holds IsValid
        (write_common_ram s.memory_map target v size >>= λ map. ok (record s { memory_map = map }))
write_ram-IsValid s target v size h =
    Holds-bind _ _ (write_common_ram-IsByteMap s.memory_map target v size h.bytes)
      (λ map k. Holds-ok _ (memory_map-IsValid s map h k))

write_backing-IsValid :
    (backing : Backing) (env : Environment) (s : State) (target : MemoryTarget) (v size : ℕ)
    → KeepsValid env
    → IsValid s
    → IsWord v
    → Holds IsValid (elim backing [
      | unallocated ↦
          write_common_ram s.memory_map target v size >>= λ map. ok (record s { memory_map = map })
      | ram bytes ↦
          write_common_ram s.memory_map target v size >>= λ map. ok (record s { memory_map = map })
      | device d ↦ write_func env d s target.offset v
    ])
write_backing-IsValid unallocated env s target v size keeps h fits =
    write_ram-IsValid s target v size h
write_backing-IsValid (ram bytes) env s target v size keeps h fits =
    write_ram-IsValid s target v size h
write_backing-IsValid (device d) env s target v size keeps h fits =
    write_func-IsValid env d s target.offset v keeps h fits

write_target-IsValid :
    (env : Environment) (s : State) (target : MemoryTarget) (v size : ℕ)
    → KeepsValid env
    → IsValid s
    → IsWord v
    → Holds IsValid (write_target env s target v size)
unfolding write_target
write_target-IsValid env s target v size keeps h fits =
    Holds-option (get_elem? s.memory_map target.range) undefined
      (λ (range : MemoryRange). elim range.backing [
        | unallocated ↦ write_common_ram s.memory_map target v size >>= λ map.
            ok (record s { memory_map = map })
        | ram bytes ↦ write_common_ram s.memory_map target v size >>= λ map.
            ok (record s { memory_map = map })
        | device d ↦ write_func env d s target.offset v
      ])
      Holds-undefined
      (λ range e. write_backing-IsValid range.backing env s target v size keeps h fits)

read_found-IsValid :
    (status : Target) (s : State) (size : ℕ)
    → IsValid s
    → Holds IsValidWith (elim status [
      | found target ↦ read_target s target size >>= λ value. ok (s, value)
      | faulted ↦ ok (s, page_fault_word)
      | no_range ↦ undefined
    ])
read_found-IsValid (found target) s size h =
    Holds-bind _ _ (read_target-IsWord s target size h)
      (λ v k. Holds-ok _ (record { state = h; value = k }))
read_found-IsValid faulted s size h = Holds-ok _ (record { state = h; value = omega arith })
read_found-IsValid no_range s size h = Holds-undefined

pub read_common-IsValid :
    (s : State) (address size : ℕ)
    → IsWord address
    → IsValid s
    → Holds IsValidWith (read_common s address size)
unfolding read_common
read_common-IsValid s address size fits h =
    Holds-bind _ _ (get_memory_target-IsValid s address load fits h)
      (λ r k. read_found-IsValid (r.1) (r.0) size k)

write_found-IsValid :
    (status : Target) (env : Environment) (s : State) (v size : ℕ)
    → KeepsValid env
    → IsValid s
    → IsWord v
    → Holds IsValid (elim status [
      | found target ↦ write_target env s target v size
      | faulted ↦ ok s
      | no_range ↦ undefined
    ])
write_found-IsValid (found target) env s v size keeps h fits =
    write_target-IsValid env s target v size keeps h fits
write_found-IsValid faulted env s v size keeps h fits = Holds-ok _ h
write_found-IsValid no_range env s v size keeps h fits = Holds-undefined

pub write_common-IsValid :
    (env : Environment) (s : State) (address v size : ℕ)
    → KeepsValid env
    → IsValid s
    → IsWord address
    → IsWord v
    → Holds IsValid (write_common env s address v size)
unfolding write_common
write_common-IsValid env s address v size keeps h at fits =
    Holds-bind _ _ (get_memory_target-IsValid s address store at h)
      (λ r k. write_found-IsValid (r.1) env (r.0) v size keeps k fits)

extended_word :
    (b : Bool) (v mask : ℕ) → IsWord v → IsWord mask → IsWord (if b then bit_or v mask else v)
extended_word true v mask h k = bit_or-lt 32 v mask h k
extended_word false v mask h k = h

module _ (s : State) (address : ℕ) (at : IsWord address) (h : IsValid s) where
  pub read_word-IsValid : Holds IsValidWith (read_word s address)
  unfolding read_word
  read_word-IsValid = read_common-IsValid s address _ at h

  pub read_halfword_unsigned-IsValid : Holds IsValidWith (read_halfword_unsigned s address)
  unfolding read_halfword_unsigned
  read_halfword_unsigned-IsValid = read_common-IsValid s address _ at h

  pub read_byte_unsigned-IsValid : Holds IsValidWith (read_byte_unsigned s address)
  unfolding read_byte_unsigned
  read_byte_unsigned-IsValid = read_common-IsValid s address _ at h

  pub read_halfword_signed-IsValid : Holds IsValidWith (read_halfword_signed s address)
  unfolding read_halfword_signed extend_halfword
  read_halfword_signed-IsValid = Holds-bind _ _ (read_common-IsValid s address _ at h) (λ r k.
      Holds-ok _ (record {
        state = k.state;
        value =
            extended_word (bit_and (r.1) 0x8000 == 0x8000) (r.1) 0xffff0000 k.value (omega arith);
      }))

  pub read_byte_signed-IsValid : Holds IsValidWith (read_byte_signed s address)
  unfolding read_byte_signed extend_byte
  read_byte_signed-IsValid = Holds-bind _ _ (read_common-IsValid s address _ at h) (λ r k.
      Holds-ok _ (record {
        state = k.state;
        value = extended_word (bit_and (r.1) 0x80 == 0x80) (r.1) 0xffffff00 k.value (omega arith);
      }))

module _ (env : Environment) (s : State) (address v : ℕ) (keeps : KeepsValid env) (h : IsValid s)
    (at : IsWord address) (fits : IsWord v) where
  pub write_word-IsValid : Holds IsValid (write_word env s address v)
  unfolding write_word
  write_word-IsValid = write_common-IsValid env s address v _ keeps h at fits

  pub write_halfword-IsValid : Holds IsValid (write_halfword env s address v)
  unfolding write_halfword
  write_halfword-IsValid = write_common-IsValid env s address (u16 v) _ keeps h at (omega arith)

  pub write_byte-IsValid : Holds IsValid (write_byte env s address v)
  unfolding write_byte
  write_byte-IsValid = write_common-IsValid env s address (u8 v) _ keeps h at (omega arith)
