-- ===== src/Memory/Valid/Translate.antt =====
-- Address translation: the walk writes only accessed and dirty flags, and a fault leaves words
-- behind.
use emuriscv.Base.{
  ℕ, zero, suc, ◌-◌, ◌^◌, arith, bit_and, shl32, shr, IsWord, if◌then◌else◌, ◌==◌, ◌||◌, none, some,
  Option,
}
use emuriscv.Base.{
  Holds, Holds-ok, Holds-undefined, Holds-exit, Holds-if, Holds-bind, Holds-option, Bool, true,
  false, exit, ok, undefined, Outcome, ◌>>=◌,
}
use emuriscv.Machine.{State, priv_m, read_csr}
use emuriscv.Machine.Valid.{IsValid}
use emuriscv.Memory.Map.{MemoryMap}
use emuriscv.Memory.Map.Bytes.{IsByteMap}
use emuriscv.Memory.Ram.{MemoryTarget, read_common_ram, write_common_ram, size_word}
use emuriscv.Memory.Translate.{
  pte_w, pte_xw, get_memory_mode, csr_satp, AccessType, load, store, fetch, Translation, Target,
  translated, page_fault, not_stored, found, faulted, no_range, read_word_physical,
  write_word_physical, get_memory_target_physical, update_pte_flags, translate_levels,
  translate_address, raise_page_fault, physical_target, get_memory_target, page_fault_cause,
}
use emuriscv.Memory.Valid.Ram.{read_common_ram-IsWord, write_common_ram-IsByteMap}

-- A state with the result that a translation, or the search for a target, gives.
abbrev pub StateIsValid {ℓ} : {A : Type ℓ} → State × A → Type 0
StateIsValid r = IsValid (r.0)

pub memory_map-IsValid :
    (s : State) (map : MemoryMap)
    → IsValid s
    → IsByteMap map
    → IsValid (record s { memory_map = map })
memory_map-IsValid s map h k = record {
  zero_register = h.zero_register;
  registers = h.registers;
  csrs = h.csrs;
  history = h.history;
  uart = h.uart;
  program_counter = h.program_counter;
  counter = h.counter;
  pending_cause = h.pending_cause;
  pending_value = h.pending_value;
  reservation = h.reservation;
  privilege_fits = h.privilege_fits;
  bytes = k;
  tohost = h.tohost;
  fromhost = h.fromhost;
  compare_time = h.compare_time;
  cycles = h.cycles;
}

write_word_physical-IsValid :
    (s : State) (a v : ℕ) → IsValid s → Holds IsValid (write_word_physical s a v)
unfolding write_word_physical
write_word_physical-IsValid s a v h =
    Holds-option (get_memory_target_physical s a) _
      (λ target. write_common_ram s.memory_map target v size_word >>= λ map.
        ok (record s { memory_map = map }))
      Holds-undefined
      (λ target e.
        Holds-bind _ _ (write_common_ram-IsByteMap s.memory_map target v size_word h.bytes)
          (λ map k. Holds-ok _ (memory_map-IsValid s map h k)))

read_word_physical-IsWord : (s : State) (a : ℕ) → IsValid s → Holds IsWord (read_word_physical s a)
unfolding read_word_physical
read_word_physical-IsWord s a h =
    Holds-option (get_memory_target_physical s a) _
      (λ target. read_common_ram s.memory_map target size_word) Holds-undefined
      (λ target e. read_common_ram-IsWord s.memory_map target size_word h.bytes)

update_pte_flags-IsValid :
    (s : State) (a pte : ℕ) (t : AccessType)
    → IsValid s
    → Holds IsValid (update_pte_flags s a pte t)
unfolding update_pte_flags
update_pte_flags-IsValid s a pte t h =
    Holds-if _ _ _ (Holds-ok _ h) (write_word_physical-IsValid s a _ h)

-- What one level makes of its entry.
level-IsValid :
    (invalid pointer reserved : Bool) (s : State) (next : Outcome (State × Translation))
    (updated : Outcome State) (address : ℕ)
    → IsValid s
    → Holds StateIsValid next
    → Holds IsValid updated
    → Holds StateIsValid (
        if invalid
        then ok (s, page_fault)
        else if pointer
        then next
        else if reserved
        then ok (s, page_fault)
        else updated >>= λ s'. ok (s', translated address))
level-IsValid true pointer reserved s next updated address h k u = Holds-ok _ h
level-IsValid false true reserved s next updated address h k u = k
level-IsValid false false true s next updated address h k u = Holds-ok _ h
level-IsValid false false false s next updated address h k u =
    Holds-bind _ _ u (λ s' h'. Holds-ok _ h')

translate_levels-IsValid :
    (left : ℕ) (s : State) (va : ℕ) (t : AccessType) (table : ℕ)
    → IsValid s
    → Holds StateIsValid (translate_levels left s va t table)
unfolding translate_levels
translate_levels-IsValid zero s va t table h = Holds-ok _ h
translate_levels-IsValid (suc left) s va t table h =
    Holds-bind _ _ (read_word_physical-IsWord s _ h) (λ pte k.
      let xwr = bit_and (shr pte 1) 7 in
      level-IsValid (bit_and pte 1 == 0) (xwr == 0) (xwr == pte_w || xwr == pte_xw) s _ _ _ h
        (translate_levels-IsValid left s va t (shl32 (shr pte 10) 12) h)
        (update_pte_flags-IsValid s _ pte t h))

-- The three modes of translation.
mode-IsValid :
    (machine bare sv32 : Bool) (s : State) (va code : ℕ) (walk : Outcome (State × Translation))
    → IsValid s
    → Holds StateIsValid walk
    → Holds StateIsValid (
        if machine
        then ok (s, translated va)
        else if bare
        then ok (s, translated va)
        else if sv32
        then walk
        else exit code)
mode-IsValid true bare sv32 s va code walk h k = Holds-ok _ h
mode-IsValid false true sv32 s va code walk h k = Holds-ok _ h
mode-IsValid false false true s va code walk h k = k
mode-IsValid false false false s va code walk h k = Holds-exit code

translate_address-IsValid :
    (s : State) (va : ℕ) (t : AccessType)
    → IsValid s
    → Holds StateIsValid (translate_address s va t)
unfolding translate_address
translate_address-IsValid s va t h =
    mode-IsValid (s.privilege == priv_m) (get_memory_mode s == 0) (get_memory_mode s == 1) s va _ _
      h
      (translate_levels-IsValid 2 s va t (shl32 (bit_and (read_csr s csr_satp) (2 ^ 22 - 1)) 12) h)

page_fault_cause-IsWord : (t : AccessType) → IsWord (page_fault_cause t)
unfolding page_fault_cause
page_fault_cause-IsWord load = omega arith
page_fault_cause-IsWord store = omega arith
page_fault_cause-IsWord fetch = omega arith

raise_page_fault-IsValid :
    (s : State) (va : ℕ) (t : AccessType)
    → IsWord va
    → IsValid s
    → IsValid (raise_page_fault s va t)
unfolding raise_page_fault
raise_page_fault-IsValid s va t fits h = search page_fault_cause-IsWord

target-IsValid :
    (o : Option MemoryTarget) (s : State)
    → IsValid s
    → StateIsValid {A = Target} (elim o [ none ↦ (s, no_range) | some target ↦ (s, found target) ])
target-IsValid none s h = h
target-IsValid (some target) s h = h

result-IsValid :
    (s : State) (va : ℕ) (t : AccessType) (result : Translation)
    → IsWord va
    → IsValid s
    → Holds StateIsValid (elim result [
      | translated physical_address ↦ ok (physical_target s physical_address)
      | page_fault ↦ ok (raise_page_fault s va t, faulted)
      | not_stored ↦ undefined
    ])
unfolding physical_target
result-IsValid s va t (translated a) fits h =
    Holds-ok _ (target-IsValid (get_memory_target_physical s a) s h)
result-IsValid s va t page_fault fits h = Holds-ok _ (raise_page_fault-IsValid s va t fits h)
result-IsValid s va t not_stored fits h = Holds-undefined

pub get_memory_target-IsValid :
    (s : State) (va : ℕ) (t : AccessType)
    → IsWord va
    → IsValid s
    → Holds StateIsValid (get_memory_target s va t)
unfolding get_memory_target
get_memory_target-IsValid s va t fits h =
    Holds-bind _ _ (translate_address-IsValid s va t h)
      (λ r k. result-IsValid (r.0) va t (r.1) fits k)
