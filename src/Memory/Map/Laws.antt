-- ===== src/Memory/Map/Laws.antt =====
-- The search of `get_phys_mem_range`.
use emuriscv.Base.{
  ◌≤◌, ◌⊎◌, ltb, ltb→lt, ℕ, zero, suc, ◌+◌, ◌<◌, ◌≡◌, inl, inr, refl, sym, ap, ◌∙◌, arith,
}
use emuriscv.Base.{[], ◌∷◌, Option, none, some, get_elem?, set, true, false, Bool-cases}
use emuriscv.Memory.Map.{MemoryMap, MemoryRange, in_range, get_phys_mem_range}
use mathlib.Core.Option

some_inj : {i j : ℕ} → some i ≡ some j → i ≡ j
some_inj h = cc

range_inj : {r s : MemoryRange} → some r ≡ some s → r ≡ s
range_inj h = cc

some_ne_none {ℓ} : {A : Type ℓ} (i : ℕ) → some i ≡ none → A
some_ne_none i h = cc

map-none_inv : (o : Option ℕ) → Option.map (λ j. j + 1) o ≡ none → o ≡ none
map-none_inv none h = refl
map-none_inv (some j) h = cc

-- A hit at `suc i` comes from a hit at `i` in the rest.
map-suc_inv :
    (o : Option ℕ) (i : ℕ)
    → Option.map (λ j. j + 1) o ≡ some i
    → (j : ℕ) × (o ≡ some j) × (i ≡ suc j)
map-suc_inv none i h = cc
map-suc_inv (some j) i h = (j, refl, omega (arith, some_inj h))

hit_at_zero :
    (r : MemoryRange) (map : MemoryMap) (paddr i : ℕ)
    → in_range r paddr ≡ true
    → get_phys_mem_range (r ∷ map) paddr ≡ some i
    → 0 ≡ i
unfolding get_phys_mem_range
hit_at_zero r map paddr i hit h = some_inj (sym (rw hit refl) ∙ h)

hit_after :
    (r : MemoryRange) (map : MemoryMap) (paddr i : ℕ)
    → in_range r paddr ≡ false
    → get_phys_mem_range (r ∷ map) paddr ≡ some i
    → (j : ℕ) × (get_phys_mem_range map paddr ≡ some j) × (i ≡ suc j)
unfolding get_phys_mem_range
hit_after r map paddr i miss h =
    map-suc_inv (get_phys_mem_range map paddr) i (sym (rw miss refl) ∙ h)

-- The range at the index that `get_phys_mem_range` returns holds the address.
pub get_phys_mem_range-in_range :
    (map : MemoryMap) (paddr i : ℕ)
    → get_phys_mem_range map paddr ≡ some i
    → (range : MemoryRange) × (get_elem? map i ≡ some range) × (in_range range paddr ≡ true)
unfolding get_phys_mem_range
get_phys_mem_range-in_range [] paddr i h = cc
get_phys_mem_range-in_range (r ∷ map) paddr i h = elim (Bool-cases (in_range r paddr)) [
  | inl hit ↦ (r, ap (get_elem? (r ∷ map)) (sym (hit_at_zero r map paddr i hit h)), hit)
  | inr miss ↦
      let (j, there, e) = hit_after r map paddr i miss h in
      let (range, at_j, holds) = get_phys_mem_range-in_range map paddr j there in
      (range, ap (get_elem? (r ∷ map)) e ∙ at_j, holds)
]

-- No range before the index that `get_phys_mem_range` returns holds the address.
pub get_phys_mem_range-first :
    (map : MemoryMap) (paddr i j : ℕ) (earlier : MemoryRange)
    → get_phys_mem_range map paddr ≡ some i
    → j < i
    → get_elem? map j ≡ some earlier
    → in_range earlier paddr ≡ false
get_phys_mem_range-first [] paddr i j earlier h lt at = cc
get_phys_mem_range-first (r ∷ map) paddr i zero earlier h lt at =
    elim (Bool-cases (in_range r paddr)) [
      | inl hit ↦ absurd (omega (arith, hit_at_zero r map paddr i hit h))
      | inr miss ↦ ap (λ x. in_range x paddr) (sym (range_inj at)) ∙ miss
    ]
get_phys_mem_range-first (r ∷ map) paddr i (suc j) earlier h lt at =
    elim (Bool-cases (in_range r paddr)) [
      | inl hit ↦ absurd (omega (arith, hit_at_zero r map paddr i hit h))
      | inr miss ↦
          let (k, there, e) = hit_after r map paddr i miss h in
          get_phys_mem_range-first map paddr k j earlier there (omega arith) at
    ]

-- Where `get_phys_mem_range` returns nothing, no range holds the address.
pub get_phys_mem_range-none :
    (map : MemoryMap) (paddr j : ℕ) (range : MemoryRange)
    → get_phys_mem_range map paddr ≡ none
    → get_elem? map j ≡ some range
    → in_range range paddr ≡ false
unfolding get_phys_mem_range
get_phys_mem_range-none [] paddr j range h at = cc
get_phys_mem_range-none (r ∷ map) paddr zero range h at = elim (Bool-cases (in_range r paddr)) [
  | inl hit ↦ some_ne_none 0 (sym (rw hit refl) ∙ h)
  | inr miss ↦ ap (λ x. in_range x paddr) (sym (range_inj at)) ∙ miss
]
get_phys_mem_range-none (r ∷ map) paddr (suc j) range h at = elim (Bool-cases (in_range r paddr)) [
  | inl hit ↦ some_ne_none 0 (sym (rw hit refl) ∙ h)
  | inr miss ↦
      get_phys_mem_range-none map paddr j range (map-none_inv _ (sym (rw miss refl) ∙ h)) at
]

-- Where some range holds the address, `get_phys_mem_range` returns an index, which is not after that
-- range.
pub get_phys_mem_range-le :
    (map : MemoryMap) (paddr j : ℕ) (range : MemoryRange)
    → get_elem? map j ≡ some range
    → in_range range paddr ≡ true
    → (i : ℕ) × (get_phys_mem_range map paddr ≡ some i) × (i ≤ j)
get_phys_mem_range-le map paddr j range at hit =
    elim (option_cases (get_phys_mem_range map paddr)) [
      | inl e ↦ absurd (false_ne_true (sym (get_phys_mem_range-none map paddr j range e at) ∙ hit))
      | inr (i, e) ↦ elim (Bool-cases (ltb j i)) [
        | inl lt ↦ absurd (
            false_ne_true
              (sym (get_phys_mem_range-first map paddr i j range e (ltb→lt j i lt) at) ∙ hit))
        | inr ge ↦ (i, e, ground arith)
      ]
    ]
  where
    option_cases : (o : Option ℕ) → (o ≡ none) ⊎ ((i : ℕ) × (o ≡ some i))
    option_cases none = inl refl
    option_cases (some i) = inr (i, refl)

    false_ne_true : ¬ (false ≡ true)
    false_ne_true e = cc

-- Only the addresses and sizes of the ranges decide.
pub get_phys_mem_range-set :
    (map : MemoryMap) (i : ℕ) (old new : MemoryRange) (paddr : ℕ)
    → get_elem? map i ≡ some old
    → new.address ≡ old.address
    → new.size ≡ old.size
    → get_phys_mem_range (set map i new) paddr ≡ get_phys_mem_range map paddr
unfolding get_phys_mem_range in_range
get_phys_mem_range-set [] i old new paddr h ea es = refl
get_phys_mem_range-set (r ∷ map) zero old new paddr h ea es =
    let address : new.address ≡ r.address = ea ∙ ap MemoryRange.address (sym (range_inj h)) in
    let size : new.size ≡ r.size = es ∙ ap MemoryRange.size (sym (range_inj h)) in
    rw (address, size) refl
get_phys_mem_range-set (r ∷ map) (suc i) old new paddr h ea es =
    rw (get_phys_mem_range-set map i old new paddr h ea es) refl
