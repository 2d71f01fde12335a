-- ===== src/Memory/Translate/Outcomes.antt =====
-- What `translate_address` and `get_memory_target` make of the result of a page walk.
use emuriscv.Base.{ℕ, ◌*◌, ◌%◌, ◌^◌, ◌≡◌, ◌≢◌, refl, ◌∙◌, arith, ==_ne}
use emuriscv.Base.{ok, undefined, u32, true}
use emuriscv.Bits.{bit_and_mask}
use emuriscv.Machine.{State, read_csr, priv_m}
use emuriscv.Memory.Map.{MemoryMap}
use emuriscv.Memory.Translate.{AccessType, load, store, fetch, Translation, page_fault, not_stored}
use emuriscv.Memory.Translate.{
  translate_levels, translate_address, get_memory_target, get_memory_mode,
}
use emuriscv.Memory.Translate.{csr_satp}
use emuriscv.Memory.Translate.{faulted}
use emuriscv.Memory.Translate.Walk.{Walk}
use emuriscv.Memory.Translate.Refine.{translate_levels-Walk}

-- Below machine mode, with the Sv32 mode in `satp`.
pub record IsPaged (state : State) : Type 0 where
  pub below_m : state.privilege ≢ priv_m
  pub sv32 : get_memory_mode state ≡ 1

-- The root table, from the page number in `satp`.
abbrev pub root_table : State → ℕ
root_table state = u32 (read_csr state csr_satp % 2 ^ 22 * 2 ^ 12)

module _ (state : State) (va : ℕ) (t : AccessType) (paged : IsPaged state) where
  pub translate_address-paged :
      translate_address state va t ≡ translate_levels 2 state va t (root_table state)
  unfolding translate_address
  translate_address-paged =
      rw (==_ne _ _ paged.below_m, paged.sv32, bit_and_mask 22 (read_csr state csr_satp)) refl

  pub translate_address-Walk :
      (result : Translation)
      → Walk state va 2 (root_table state) result
      → (map : MemoryMap) × (translate_address state va t
          ≡ ok (record state { memory_map = map }, result))
  translate_address-Walk result w =
      let (map, e) = translate_levels-Walk state va t (omega arith) w in
      (map, translate_address-paged ∙ e)

-- A page fault is pending with this cause and address, and nothing else but the memory has changed.
abbrev pub HasFaulted : State → ℕ → AccessType → ℕ → Type 0
HasFaulted state va t cause =
    (map : MemoryMap) × (get_memory_target state va t
      ≡ ok (
        record state {
          memory_map = map;
          pending_exception = cause;
          pending_tval = va;
          has_pending_exception = true;
        },
        faulted,
      ))

-- Where the walk of the page tables comes to a fault, it is pending for the virtual address with the
-- cause that the architecture gives to the access, 12 for a fetch, 13 for a load and 15 for a store,
-- and nothing else but the memory has changed.
pub get_memory_target-page_fault :
    (state : State) (va : ℕ)
    → IsPaged state
    → Walk state va 2 (root_table state) page_fault
    → HasFaulted state va fetch 12 × HasFaulted state va load 13 × HasFaulted state va store 15
unfolding get_memory_target
get_memory_target-page_fault state va paged w =
    let (map_f, ef) = translate_address-Walk state va fetch paged page_fault w in
    let (map_l, el) = translate_address-Walk state va load paged page_fault w in
    let (map_s, es) = translate_address-Walk state va store paged page_fault w in
    ((map_f, rw ef refl), (map_l, rw el refl), (map_s, rw es refl))

-- Where the entry of the last level still points on, there is no page fault: `translate_address`
-- reports success with no address stored, and the access is undefined.
pub get_memory_target-not_stored :
    (state : State) (va : ℕ) (t : AccessType)
    → IsPaged state
    → Walk state va 2 (root_table state) not_stored
    → get_memory_target state va t ≡ undefined
unfolding get_memory_target
get_memory_target-not_stored state va t paged w =
    let (map, e) = translate_address-Walk state va t paged not_stored w in rw e refl
