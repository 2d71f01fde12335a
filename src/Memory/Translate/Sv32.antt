-- ===== src/Memory/Translate/Sv32.antt =====
-- The Sv32 page walk of the privileged architecture with its permission checks, and what
-- `get_memory_target` does where that walk permits an access.
use emuriscv.Base.{
  ℕ, zero, suc, ◌+◌, ◌*◌, ◌/◌, ◌%◌, ◌^◌, ◌≤◌, ◌<◌, ◌≡◌, ◌≢◌, ◌⊎◌, inl, inr, refl, sym, ap, ◌∙◌,
  arith, IsWord, some, get_elem?, bit_and, bit_or, Bool-cases, ◌==◌, ==_ne, ok, sub32,
}
use emuriscv.Bits.{bit_or-absorbs}
use emuriscv.Bits.Bounds.{bit_or-lt}
use emuriscv.Machine.{State, read_csr, priv_s, priv_u}
use emuriscv.Memory.Map.{MemoryMap, MemoryRange, get_phys_mem_range}
use emuriscv.Memory.Ram.{MemoryTarget}
use emuriscv.Memory.Translate.{
  AccessType, load, store, fetch, translated, found, read_word_physical, accessed_or_dirty_flags,
  update_pte_flags, translate_levels, leaf_address, get_memory_target, get_memory_target_physical,
  physical_target,
}
use emuriscv.Memory.Translate.Update.{IsUpdated, write_word_physical-IsUpdated}
use emuriscv.Memory.Translate.Walk.{
  entry_address, entry_page, permissions, valid_bit, permission_bits, index_bits, leaf_address_lem,
}
use emuriscv.Memory.Translate.Outcomes.{IsPaged, root_table, translate_address-paged}

abbrev pub csr_mstatus : ℕ
csr_mstatus = 0x300

-- One bit of a number.
abbrev pub bit : ℕ → ℕ → ℕ
bit n i = n / 2 ^ i % 2

-- R, W, X and U of an entry, and SUM and MXR of `mstatus`.
abbrev pub IsReadable : State → ℕ → Type 0
IsReadable state pte =
    (bit pte 1 ≡ 1) ⊎ ((bit pte 3 ≡ 1) × (bit (read_csr state csr_mstatus) 19 ≡ 1))

abbrev pub AllowsAccess : State → AccessType → ℕ → Type 0
AllowsAccess state load pte = IsReadable state pte
AllowsAccess state store pte = bit pte 2 ≡ 1
AllowsAccess state fetch pte = bit pte 3 ≡ 1

-- Supervisor mode gets at a page of user mode only with SUM, and never to fetch.
abbrev pub AllowsMode : State → AccessType → ℕ → Type 0
AllowsMode state t pte =
    ((state.privilege ≡ priv_u) × (bit pte 4 ≡ 1))
    ⊎ ((state.privilege ≡ priv_s)
        × ((bit pte 4 ≡ 0) ⊎ ((t ≢ fetch) × (bit (read_csr state csr_mstatus) 18 ≡ 1))))

-- The leaf of a walk at a level, with no reserved encoding, aligned to its size. Its physical address
-- has 34 bits; here it fits into the 32 of the emulator.
pub record IsLeaf (state : State) (t : AccessType) (left pte : ℕ) : Type 0 where
  pub valid : bit pte 0 ≡ 1
  pub points : (bit pte 1 ≡ 1) ⊎ ((bit pte 3 ≡ 1) × (bit pte 2 ≡ 0))
  pub access : AllowsAccess state t pte
  pub mode : AllowsMode state t pte
  pub aligned : pte / 2 ^ 10 % 2 ^ (10 * left) ≡ 0
  pub fits : pte < 2 ^ 30

-- The walk from a table with a number of levels below it to the leaf entry, at its address, and to
-- the physical address.
pub data Sv32 (state : State) (va : ℕ) (t : AccessType) : ℕ → ℕ → ℕ → ℕ → ℕ → Type 0 where
  leaf :
      (left table pte pa : ℕ)
      → read_word_physical state (entry_address table va left) ≡ ok pte
      → IsLeaf state t left pte
      → pa ≡ pte / 2 ^ 10 * 2 ^ 12 + va % 2 ^ (12 + 10 * left)
      → Sv32 state va t left table (entry_address table va left) pte pa
  pointer :
      (left table pte at entry pa : ℕ)
      → read_word_physical state (entry_address table va (suc left)) ≡ ok pte
      → bit pte 0 ≡ 1
      → (bit pte 1 ≡ 0) × (bit pte 2 ≡ 0) × (bit pte 3 ≡ 0)
      → Sv32 state va t left (entry_page pte) at entry pa
      → Sv32 state va t (suc left) table at entry pa

-- A, and D for a store.
abbrev pub accessed_dirty : AccessType → ℕ
accessed_dirty load = 2 ^ 6
accessed_dirty store = 2 ^ 6 + 2 ^ 7
accessed_dirty fetch = 2 ^ 6

flags_lem : (t : AccessType) → accessed_or_dirty_flags t ≡ accessed_dirty t
unfolding accessed_or_dirty_flags
flags_lem load = refl
flags_lem store = refl
flags_lem fetch = refl

flags-IsWord : (t : AccessType) → IsWord (accessed_dirty t)
flags-IsWord load = omega arith
flags-IsWord store = omega arith
flags-IsWord fetch = omega arith

leaf_permissions :
    (pte : ℕ)
    → (bit pte 1 ≡ 1) ⊎ ((bit pte 3 ≡ 1) × (bit pte 2 ≡ 0))
    → (permissions pte ≢ 0) × (permissions pte ≢ 2) × (permissions pte ≢ 6)
leaf_permissions pte (inl r) =
    (λ e. absurd (omega arith), λ e. absurd (omega arith), λ e. absurd (omega arith))
leaf_permissions pte (inr (x, w)) =
    (λ e. absurd (omega arith), λ e. absurd (omega arith), λ e. absurd (omega arith))

pointer_permissions :
    (pte : ℕ) → (bit pte 1 ≡ 0) × (bit pte 2 ≡ 0) × (bit pte 3 ≡ 0) → permissions pte ≡ 0
pointer_permissions pte (r, w, x) = omega arith

valid : (pte : ℕ) → bit pte 0 ≡ 1 → pte % 2 ≡ 1
valid pte h = omega arith

entry-IsWord : (pte : ℕ) → pte < 2 ^ 30 → IsWord pte
entry-IsWord pte h = omega arith

leaf_address-aligned :
    (va pte left : ℕ)
    → left ≤ 1
    → pte < 2 ^ 30
    → pte / 2 ^ 10 % 2 ^ (10 * left) ≡ 0
    → leaf_address va (entry_page pte) (12 + 10 * left)
      ≡ pte / 2 ^ 10 * 2 ^ 12 + va % 2 ^ (12 + 10 * left)
leaf_address-aligned va pte zero h fits aligned =
    leaf_address_lem va (entry_page pte) 0 h (omega arith) ∙ omega arith
leaf_address-aligned va pte (suc zero) h fits aligned =
    leaf_address_lem va (entry_page pte) 1 h (omega arith) ∙ omega arith
leaf_address-aligned va pte (suc (suc left)) h fits aligned = absurd (omega arith)

-- The place of an address in a range of the memory map.
abbrev pub place : ℕ → ℕ → MemoryRange → MemoryTarget
place pa i range = record { range = i; offset = sub32 pa range.address }

-- Where A, and D for a store, are set in the entry, and the physical address lies in this range.
module _ (state : State) (pa i : ℕ) (range : MemoryRange)
    (at_range : get_phys_mem_range state.memory_map pa ≡ some i)
    (there : get_elem? state.memory_map i ≡ some range) where
  place_lem : get_memory_target_physical state pa ≡ some (place pa i range)
  unfolding get_memory_target_physical
  place_lem = ground (arith, at_range, there)

  update_pte_flags-IsUpdated :
      (a pte : ℕ) (t : AccessType)
      → read_word_physical state a ≡ ok pte
      → IsWord pte
      → (map : MemoryMap) × (update_pte_flags state a pte t
          ≡ ok (record state { memory_map = map }))
        × IsUpdated state a (bit_or pte (accessed_dirty t)) pa (place pa i range) map
  unfolding update_pte_flags
  update_pte_flags-IsUpdated a pte t read fits =
      let flags = accessed_dirty t in
      elim (Bool-cases (bit_and pte flags == flags)) [
        | inl set ↦ (
          state.memory_map,
          rw (flags_lem t, set) refl,
          record {
            reads_back = read ∙ ap ok (sym (bit_or-absorbs pte flags (ground arith)));
            same_place = place_lem;
          },
        )
        | inr clear ↦
            let (map, e, u) =
              write_word_physical-IsUpdated state a pte (bit_or pte flags) pa i range read
                (bit_or-lt 32 pte flags fits (flags-IsWord t)) at_range there in
            (map, rw (flags_lem t, clear) e, u)
      ]

translate_levels-Sv32 :
    (state : State) (i : ℕ) (range : MemoryRange) (va : ℕ) (t : AccessType)
    {left table entry pte pa : ℕ}
    → left ≤ 1
    → Sv32 state va t left table entry pte pa
    → get_phys_mem_range state.memory_map pa ≡ some i
    → get_elem? state.memory_map i ≡ some range
    → (map : MemoryMap) × (translate_levels (suc left) state va t table
        ≡ ok (record state { memory_map = map }, translated pa))
      × IsUpdated state entry (bit_or pte (accessed_dirty t)) pa (place pa i range) map
unfolding translate_levels
translate_levels-Sv32 state i range va t h (leaf left table pte pa read l e) at_range there =
    let (ne_0, ne_2, ne_6) = leaf_permissions pte l.points in
    let (map, updated, u) =
      update_pte_flags-IsUpdated state pa i range at_range there (entry_address table va left) pte t
        read (entry-IsWord pte l.fits) in
    (
      map,
      rw
          (
            index_bits (va / 2 ^ (12 + 10 * left)),
            read,
            valid_bit pte,
            valid pte l.valid,
            permission_bits pte,
            ==_ne (permissions pte) 0 ne_0,
            ==_ne (permissions pte) 2 ne_2,
            ==_ne (permissions pte) 6 ne_6,
            updated,
          )
          (ap (λ a. ok (record state { memory_map = map }, translated a))
            (leaf_address-aligned va pte left h l.fits l.aligned ∙ sym e)),
      u,
    )
translate_levels-Sv32 state i range va t h (pointer left table pte at entry pa read v none_set rest)
      at_range there =
    let (map, e, u) = translate_levels-Sv32 state i range va t (omega arith) rest at_range there in
    (
      map,
      rw
          (
            index_bits (va / 2 ^ (12 + 10 * suc left)),
            read,
            valid_bit pte,
            valid pte v,
            permission_bits pte,
            pointer_permissions pte none_set,
          )
          e,
      u,
    )

physical_target_lem :
    (state : State) (pa : ℕ) (target : MemoryTarget)
    → get_memory_target_physical state pa ≡ some target
    → physical_target state pa ≡ (state, found target)
unfolding physical_target
physical_target_lem state pa target h = rw (h, physical_target) refl

-- Where the walk of the architecture, with its permission checks, permits the access and comes to a
-- physical address that the memory map has, the access goes to that address in its range; the leaf
-- entry then has the bit A set, and for a store the bit D; and nothing but the memory has changed.
pub get_memory_target-Sv32 :
    (state : State) (va : ℕ) (t : AccessType) (entry pte pa i : ℕ) (range : MemoryRange)
    → IsPaged state
    → Sv32 state va t 1 (root_table state) entry pte pa
    → get_phys_mem_range state.memory_map pa ≡ some i
    → get_elem? state.memory_map i ≡ some range
    → (map : MemoryMap) × (get_memory_target state va t
        ≡ ok (
          record state { memory_map = map },
          found (record { range = i; offset = sub32 pa range.address }),
        ))
      × (read_word_physical (record state { memory_map = map }) entry
          ≡ ok (bit_or pte (accessed_dirty t)))
unfolding get_memory_target physical_target
get_memory_target-Sv32 state va t entry pte pa i range paged w at_range there =
    let (map, e, u) = translate_levels-Sv32 state i range va t (omega arith) w at_range there in
    (
      map,
      rw (translate_address-paged state va t paged, e)
          (ap ok (physical_target_lem (record state { memory_map = map }) pa _ u.same_place)),
      u.reads_back,
    )
