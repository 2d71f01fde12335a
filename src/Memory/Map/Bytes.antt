-- ===== src/Memory/Map/Bytes.antt =====
-- The RAM of a memory map holds bytes.
use emuriscv.Base.{ℕ, zero, suc, ◌^◌, ◌<◌, ◌≡◌, [], ◌∷◌, some, get_elem?, set}
use mathlib.Core.Path.{subst}
use emuriscv.Memory.Map.{MemoryMap, MemoryRange, Backing, unallocated, ram, device}

abbrev pub IsByte : ℕ → Type 0
IsByte b = b < 2 ^ 8

abbrev pub HasBytes : Backing → Type 0
HasBytes unallocated = Unit
HasBytes (ram bytes) = (i : ℕ) → IsByte (bytes i)
HasBytes (device d) = Unit

abbrev pub IsByteMap : MemoryMap → Type 0
IsByteMap [] = Unit
IsByteMap (range ∷ map) = HasBytes range.backing × IsByteMap map

range_inj : {r s : MemoryRange} → some r ≡ some s → r ≡ s
range_inj h = cc

pub get_elem?-HasBytes :
    (map : MemoryMap) (i : ℕ) (range : MemoryRange)
    → IsByteMap map
    → get_elem? map i ≡ some range
    → HasBytes range.backing
get_elem?-HasBytes [] i range h e = cc
get_elem?-HasBytes (r ∷ map) zero range (here, rest) e =
    subst (λ (s : MemoryRange). HasBytes s.backing) (range_inj e) here
get_elem?-HasBytes (r ∷ map) (suc i) range (here, rest) e = get_elem?-HasBytes map i range rest e

pub set-IsByteMap :
    (map : MemoryMap) (i : ℕ) (range : MemoryRange)
    → IsByteMap map
    → HasBytes range.backing
    → IsByteMap (set map i range)
set-IsByteMap [] i range h new = tt
set-IsByteMap (r ∷ map) zero range (here, rest) new = (new, rest)
set-IsByteMap (r ∷ map) (suc i) range (here, rest) new = (here, set-IsByteMap map i range rest new)
