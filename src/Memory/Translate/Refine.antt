-- ===== src/Memory/Translate/Refine.antt =====
-- `translate_levels` follows the page walk given as a relation.
use emuriscv.Base.{ℕ, ◌+◌, ◌*◌, ◌/◌, ◌^◌, ◌≤◌, ◌≡◌, refl, ap, arith}
use emuriscv.Base.{bit_and, bit_or, Bool-cases, inl, inr, ◌==◌, ==_ne}
use emuriscv.Base.{ok}
use emuriscv.Machine.{State}
use emuriscv.Memory.Map.{MemoryMap}
use emuriscv.Memory.Translate.{AccessType, Translation, translated, read_word_physical}
use emuriscv.Memory.Translate.{
  accessed_or_dirty_flags, update_pte_flags, translate_levels, leaf_address,
}
use emuriscv.Memory.Translate.Writable.{write_word_physical-total}
use emuriscv.Memory.Translate.Walk.{Walk, out_of_levels, invalid, reserved, leaf, pointer}
use emuriscv.Memory.Translate.Walk.{entry_address, entry_page, permissions, valid_bit}
use emuriscv.Memory.Translate.Walk.{permission_bits, index_bits, leaf_address_lem}

-- The flags of an entry that was read can be updated, and only the memory changes.
update_pte_flags-total :
    (state : State) (a pte : ℕ) (t : AccessType)
    → read_word_physical state a ≡ ok pte
    → (map : MemoryMap) × (update_pte_flags state a pte t ≡ ok (record state { memory_map = map }))
unfolding update_pte_flags
update_pte_flags-total state a pte t h =
    let flags = accessed_or_dirty_flags t in
    elim (Bool-cases (bit_and pte flags == flags)) [
      | inl set ↦ (state.memory_map, rw set refl)
      | inr clear ↦
          let (map, e) = write_word_physical-total state a pte (bit_or pte flags) h in
          (map, rw clear e)
    ]

-- Where the walk of the relation comes to a result, the loop of `translate_address` comes to
-- the same result, and changes nothing but the memory.
pub translate_levels-Walk :
    (state : State) (va : ℕ) (t : AccessType) {left table : ℕ} {result : Translation}
    → left ≤ 2
    → Walk state va left table result
    → (map : MemoryMap) × (translate_levels left state va t table
        ≡ ok (record state { memory_map = map }, result))
unfolding translate_levels
translate_levels-Walk state va t h (out_of_levels table) = (state.memory_map, refl)
translate_levels-Walk state va t h (invalid left table pte read not_valid) = (
  state.memory_map,
  rw (index_bits (va / 2 ^ (12 + 10 * left)), read, valid_bit pte, not_valid) refl,
)
translate_levels-Walk state va t h (reserved left table pte read valid bad) =
    let index = index_bits (va / 2 ^ (12 + 10 * left)) in
    (
      state.memory_map,
      elim bad [
        | inl e ↦ rw (index, read, valid_bit pte, valid, permission_bits pte, e) refl
        | inr e ↦ rw (index, read, valid_bit pte, valid, permission_bits pte, e) refl
      ],
    )
translate_levels-Walk state va t h
      (leaf left table pte read valid some_bit good page offset ep eo) =
    let index = index_bits (va / 2 ^ (12 + 10 * left)) in
    let ne_0 = ==_ne (permissions pte) 0 some_bit in
    let ne_2 = ==_ne (permissions pte) 2 (λ e. good (inl e)) in
    let ne_6 = ==_ne (permissions pte) 6 (λ e. good (inr e)) in
    let (map, updated) = update_pte_flags-total state (entry_address table va left) pte t read in
    let address : leaf_address va (entry_page pte) (12 + 10 * left)
        ≡ page * 2 ^ (12 + 10 * left) + offset =
      rw (ep, eo) (leaf_address_lem va (entry_page pte) left (omega arith) (omega arith)) in
    (
      map,
      rw (index, read, valid_bit pte, valid, permission_bits pte, ne_0, ne_2, ne_6, updated)
          (ap (λ a. ok (record state { memory_map = map }, translated a)) address),
    )
translate_levels-Walk state va t h (pointer left table pte result read valid none_set rest) =
    let (map, e) = translate_levels-Walk state va t (omega arith) rest in
    (
      map,
      rw
          (
            index_bits (va / 2 ^ (12 + 10 * left)),
            read,
            valid_bit pte,
            valid,
            permission_bits pte,
            none_set,
          )
          e,
    )
