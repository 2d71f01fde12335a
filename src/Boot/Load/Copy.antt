-- ===== src/Boot/Load/Copy.antt =====
-- What a copy leaves in the two RAM ranges of the machine.
use emuriscv.Base.{
  ℕ, ◌+◌, ◌≤◌, ◌<◌, ◌≡◌, ◌⊎◌, inl, ap, ◌∙◌, zero, suc, arith, refl, update, List, [], ◌∷◌, length,
  ok,
}
use emuriscv.Memory.Ram.{MemoryTarget, store_byte, store_to}
use emuriscv.Boot.{ram_size, low_ram_size}
use emuriscv.Boot.Ranges.{ranges}
use emuriscv.Base.{byte_at}
use emuriscv.Boot.Load.{store_bytes}

-- The bytes with a list of bytes written from an index on.
abbrev pub written : ℕ → List ℕ → (ℕ → ℕ) → ℕ → ℕ
written o [] bytes = bytes
written o (b ∷ rest) bytes = written (o + 1) rest (update bytes o b)

abbrev pub high : ℕ → MemoryTarget
high o = record { range = 0; offset = o }

abbrev pub low : ℕ → MemoryTarget
low o = record { range = 1; offset = o }

pub store_byte-high :
    (h l : ℕ → ℕ) (o b : ℕ)
    → o < ram_size
    → store_byte (ranges h l) (high o) 0 b ≡ ok (ranges (update h o b) l)
unfolding store_byte store_to
store_byte-high h l o b fits = ground arith

store_byte-low :
    (h l : ℕ → ℕ) (o b : ℕ)
    → o < low_ram_size
    → store_byte (ranges h l) (low o) 0 b ≡ ok (ranges h (update l o b))
unfolding store_byte store_to
store_byte-low h l o b fits = ground arith

pub store_bytes-high :
    (bs : List ℕ) (h l : ℕ → ℕ) (o : ℕ)
    → o + length bs ≤ ram_size
    → store_bytes (ranges h l) (high o) bs ≡ ok (ranges (written o bs h) l)
unfolding store_bytes
store_bytes-high [] h l o fits = refl
store_bytes-high (b ∷ bs) h l o fits =
    rw (store_byte-high h l o b (omega arith))
      (store_bytes-high bs (update h o b) l (o + 1) (omega arith))

pub store_bytes-low :
    (bs : List ℕ) (h l : ℕ → ℕ) (o : ℕ)
    → o + length bs ≤ low_ram_size
    → store_bytes (ranges h l) (low o) bs ≡ ok (ranges h (written o bs l))
unfolding store_bytes
store_bytes-low [] h l o fits = refl
store_bytes-low (b ∷ bs) h l o fits =
    rw (store_byte-low h l o b (omega arith))
      (store_bytes-low bs h (update l o b) (o + 1) (omega arith))

pub written_outside :
    (bs : List ℕ) (o : ℕ) (bytes : ℕ → ℕ) (j : ℕ)
    → (j < o) ⊎ (o + length bs ≤ j)
    → written o bs bytes j ≡ bytes j
written_outside [] o bytes j h = refl
written_outside (b ∷ bs) o bytes j h =
    ground (arith, written_outside bs (o + 1) (update bytes o b) j)

pub written_inside :
    (bs : List ℕ) (o : ℕ) (bytes : ℕ → ℕ) (i : ℕ)
    → i < length bs
    → written o bs bytes (o + i) ≡ byte_at bs i
written_inside [] o bytes i h = absurd (omega arith)
written_inside (b ∷ bs) o bytes zero h =
    written_outside bs (o + 1) (update bytes o b) (o + 0) (inl (omega arith)) ∙ ground arith
written_inside (b ∷ bs) o bytes (suc i) h =
    ap (written (o + 1) bs (update bytes o b)) (omega arith)
    ∙ written_inside bs (o + 1) (update bytes o b) i (omega arith)
