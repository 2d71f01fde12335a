-- ===== src/Memory/Translate/Writable.antt =====
-- A word that can be read can be written.
use emuriscv.Base.{ℕ, ◌+◌, ◌<◌, ◌≡◌, refl, sym, ◌∙◌, arith, Option, none, some, get_elem?}
use emuriscv.Base.{ok, >>=-ok}
use emuriscv.Machine.{State}
use emuriscv.Memory.Map.{MemoryMap, MemoryRange, Backing, unallocated, ram, device}
use emuriscv.Memory.Ram.{MemoryTarget, load_byte, load_from, read_word_ram, read_common_ram}
use emuriscv.Memory.Ram.RoundTrip.{IsBacked, with_bytes}
use emuriscv.Memory.Ram.Laws.{stored, write_common_ram_lem}
use emuriscv.Memory.Translate.{get_memory_target_physical, read_word_physical, write_word_physical}

load_from-inv :
    (range : MemoryRange) (offset v : ℕ)
    → load_from range offset ≡ ok v
    → (bytes : ℕ → ℕ) × (range.backing ≡ ram bytes) × (offset < range.size)
unfolding load_from
load_from-inv range offset v h = by_backing range.backing refl
  where
    by_backing :
        (b : Backing)
        → range.backing ≡ b
        → (bytes : ℕ → ℕ) × (range.backing ≡ ram bytes) × (offset < range.size)
    by_backing unallocated e = absurd (ground arith)
    by_backing (ram bytes) e = (bytes, e, ground arith)
    by_backing (device d) e = absurd (ground arith)

-- Where byte `i` of a target was read, the target is in a RAM range with that byte.
load_byte-inv :
    (map : MemoryMap) (target : MemoryTarget) (i v : ℕ)
    → load_byte map target i ≡ ok v
    → (range : MemoryRange) × (bytes : ℕ → ℕ) × IsBacked map target range bytes (i + 1)
unfolding load_byte
load_byte-inv map target i v h = by_range (get_elem? map target.range) refl
  where
    by_range :
        (r : Option MemoryRange)
        → get_elem? map target.range ≡ r
        → (range : MemoryRange) × (bytes : ℕ → ℕ) × IsBacked map target range bytes (i + 1)
    by_range none e = absurd (ground arith)
    by_range (some range) e =
        let read : load_from range (target.offset + i) ≡ ok v = ground arith in
        let (bytes, is_ram, inside) = load_from-inv range (target.offset + i) v read in
        (range, bytes, record { there = e; is_ram = is_ram; inside = omega arith })

pub read_word_ram-IsBacked :
    (map : MemoryMap) (target : MemoryTarget) (v : ℕ)
    → read_word_ram map target ≡ ok v
    → (range : MemoryRange) × (bytes : ℕ → ℕ) × IsBacked map target range bytes 4
unfolding read_word_ram
read_word_ram-IsBacked map target v h =
    let (b0, h0, e0) = >>=-ok _ (load_byte map target 0) h in
    let (b1, h1, e1) = >>=-ok _ (load_byte map target 1) h0 in
    let (b2, h2, e2) = >>=-ok _ (load_byte map target 2) h1 in
    let (b3, h3, e3) = >>=-ok _ (load_byte map target 3) h2 in load_byte-inv map target 3 b3 e3

-- Where a physical word can be read, any word can be written there.
pub write_word_physical-total :
    (state : State) (a v w : ℕ)
    → read_word_physical state a ≡ ok v
    → (map : MemoryMap) × (write_word_physical state a w ≡ ok (record state { memory_map = map }))
unfolding read_word_physical write_word_physical read_common_ram
write_word_physical-total state a v w h = by_target (get_memory_target_physical state a) refl
  where
    by_target :
        (t : Option MemoryTarget)
        → get_memory_target_physical state a ≡ t
        → (map : MemoryMap) × (write_word_physical state a w
            ≡ ok (record state { memory_map = map }))
    by_target none e = absurd (ground arith)
    by_target (some target) e =
        let read : read_word_ram state.memory_map target ≡ ok v =
          sym (rw (e, read_word_physical) refl) ∙ h in
        let (range, bytes, b) = read_word_ram-IsBacked state.memory_map target v read in
        (
          with_bytes state.memory_map target range (stored 2 target.offset w bytes),
          rw (e, write_word_physical, write_common_ram_lem 2 w (omega arith) b) refl,
        )
