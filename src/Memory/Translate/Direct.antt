-- ===== src/Memory/Translate/Direct.antt =====
-- Addresses that are not translated: machine mode, and the bare mode of `satp`.
use emuriscv.Base.{ℕ, ◌≡◌, ◌⊎◌, refl, arith}
use emuriscv.Base.{some, get_elem?-set_self, ok}
use emuriscv.Machine.{State, priv_m, read_csr}
use emuriscv.Memory.Map.{MemoryMap, MemoryRange, ram}
use emuriscv.Memory.Map.Laws.{get_phys_mem_range-set}
use emuriscv.Memory.Ram.{MemoryTarget}
use emuriscv.Memory.Ram.RoundTrip.{IsBacked, with_bytes}
use emuriscv.Memory.Translate.{get_memory_target_physical, translate_address, get_memory_target}
use emuriscv.Memory.Translate.{get_memory_mode, AccessType, found, translated, physical_target}

abbrev pub IsDirect : State → Type 0
IsDirect state = (state.privilege ≡ priv_m) ⊎ (get_memory_mode state ≡ 0)

-- The memory has no say in it.
pub IsDirect-memory_map :
    (state : State) (map : MemoryMap)
    → IsDirect state
    → IsDirect (record state { memory_map = map })
unfolding get_memory_mode read_csr
IsDirect-memory_map state map h = h

pub translate_address-direct :
    (state : State) (a : ℕ) (t : AccessType)
    → IsDirect state
    → translate_address state a t ≡ ok (state, translated a)
unfolding translate_address
translate_address-direct state a t h = ground arith

pub get_memory_target-direct :
    (state : State) (a : ℕ) (t : AccessType) (target : MemoryTarget)
    → IsDirect state
    → get_memory_target_physical state a ≡ some target
    → get_memory_target state a t ≡ ok (state, found target)
unfolding get_memory_target
get_memory_target-direct state a t target h g =
    rw (translate_address-direct state a t h, g, physical_target) refl

-- New bytes in a range move no target.
pub get_memory_target_physical-with_bytes :
    (state : State) (a : ℕ) {target : MemoryTarget} {range : MemoryRange} {bytes : ℕ → ℕ} {n : ℕ}
    (other : ℕ → ℕ)
    → IsBacked state.memory_map target range bytes n
    → get_memory_target_physical state a ≡ some target
    → get_memory_target_physical
        (record state { memory_map = with_bytes state.memory_map target range other })
        a
      ≡ some target
unfolding get_memory_target_physical with_bytes
get_memory_target_physical-with_bytes state a {target} {range} other b h = ground (
  arith,
  b.there,
  get_phys_mem_range-set state.memory_map target.range range (record range { backing = ram other })
      a b.there refl refl,
  get_elem?-set_self state.memory_map target.range (record range { backing = ram other }) range
      b.there,
)
