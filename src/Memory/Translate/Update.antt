-- ===== src/Memory/Translate/Update.antt =====
-- A word that is written to physical memory reads back, and no address moves to another place.
use emuriscv.Base.{
  ℕ, zero, suc, ◌≡◌, refl, sym, ap, ◌∙◌, arith, IsWord, [], ◌∷◌, Option, none, some, get_elem?, set,
  ok, sub32,
}
use emuriscv.Machine.{State}
use emuriscv.Memory.Map.{MemoryMap, MemoryRange, get_phys_mem_range, ram}
use emuriscv.Memory.Map.Laws.{get_phys_mem_range-set}
use emuriscv.Memory.Ram.{MemoryTarget, read_word_ram, read_common_ram}
use emuriscv.Memory.Ram.RoundTrip.{with_bytes}
use emuriscv.Memory.Ram.Laws.{stored, write_common_ram_lem, read_common_ram-stored}
use emuriscv.Memory.Translate.{get_memory_target_physical, read_word_physical, write_word_physical}
use emuriscv.Memory.Translate.Direct.{get_memory_target_physical-with_bytes}
use emuriscv.Memory.Translate.Writable.{read_word_ram-IsBacked}

range_inj : {r s : MemoryRange} → some r ≡ some s → r ≡ s
range_inj h = cc

-- Another range in the place of one with its address.
elem_after :
    (map : MemoryMap) (j i : ℕ) (old new range : MemoryRange)
    → get_elem? map j ≡ some old
    → new.address ≡ old.address
    → get_elem? map i ≡ some range
    → (moved : MemoryRange) × (get_elem? (set map j new) i ≡ some moved)
      × (moved.address ≡ range.address)
elem_after [] j i old new range there e at = cc
elem_after (r ∷ map) zero zero old new range there e at =
    (new, refl, e ∙ ap MemoryRange.address (range_inj (sym there ∙ at)))
elem_after (r ∷ map) zero (suc i) old new range there e at = (range, at, refl)
elem_after (r ∷ map) (suc j) zero old new range there e at = (range, at, refl)
elem_after (r ∷ map) (suc j) (suc i) old new range there e at =
    elem_after map j i old new range there e at

-- The state after the write of a word, and where an address then lies.
pub record IsUpdated (state : State) (a v pa : ℕ) (t : MemoryTarget) (map : MemoryMap)
    : Type 0 where
  pub reads_back : read_word_physical (record state { memory_map = map }) a ≡ ok v
  pub same_place : get_memory_target_physical (record state { memory_map = map }) pa ≡ some t

same_place_lem :
    (state : State) (pa i : ℕ) (range : MemoryRange) (target : MemoryTarget) (backed : MemoryRange)
    (bytes : ℕ → ℕ)
    → get_elem? state.memory_map target.range ≡ some backed
    → get_phys_mem_range state.memory_map pa ≡ some i
    → get_elem? state.memory_map i ≡ some range
    → get_memory_target_physical
        (record state { memory_map = with_bytes state.memory_map target backed bytes })
        pa
      ≡ some (record { range = i; offset = sub32 pa range.address })
unfolding get_memory_target_physical with_bytes
same_place_lem state pa i range target backed bytes there at elem =
    let new : MemoryRange = record backed { backing = ram bytes } in
    let (moved, em, ea) =
      elem_after state.memory_map target.range i backed new range there refl elem in
    let place =
      get_phys_mem_range-set state.memory_map target.range backed new pa there refl refl in
    ground (arith, place, at, em, ea)

pub write_word_physical-IsUpdated :
    (state : State) (a v w pa i : ℕ) (range : MemoryRange)
    → read_word_physical state a ≡ ok v
    → IsWord w
    → get_phys_mem_range state.memory_map pa ≡ some i
    → get_elem? state.memory_map i ≡ some range
    → (map : MemoryMap) × (write_word_physical state a w ≡ ok (record state { memory_map = map }))
      × IsUpdated state a w pa (record { range = i; offset = sub32 pa range.address }) map
unfolding read_word_physical write_word_physical read_common_ram
write_word_physical-IsUpdated state a v w pa i range h fits at elem =
    by_target (get_memory_target_physical state a) refl
  where
    by_target :
        (t : Option MemoryTarget)
        → get_memory_target_physical state a ≡ t
        → (map : MemoryMap) × (write_word_physical state a w
            ≡ ok (record state { memory_map = map }))
          × IsUpdated state a w pa (record { range = i; offset = sub32 pa range.address }) map
    by_target none e = absurd (ground arith)
    by_target (some target) e =
        let read : read_word_ram state.memory_map target ≡ ok v =
          sym (rw (e, read_word_physical) refl) ∙ h in
        let (backed, bytes, b) = read_word_ram-IsBacked state.memory_map target v read in
        let other = stored 2 target.offset w bytes in
        let moved = get_memory_target_physical-with_bytes state a other b e in
        (
          with_bytes state.memory_map target backed other,
          rw (e, write_word_physical, write_common_ram_lem 2 w (omega arith) b) refl,
          record {
            reads_back =
                rw (moved, read_word_physical)
                  (read_common_ram-stored 2 w (omega arith) fits b ∙ ap ok (omega arith));
            same_place = same_place_lem state pa i range target backed other b.there at elem;
          },
        )
