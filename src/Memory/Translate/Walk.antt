-- ===== src/Memory/Translate/Walk.antt =====
-- The page walk that memory.c does, with no check of permissions or of the alignment of a large page,
-- as a relation on the fields of an entry as arithmetic, and the parts of `translate_levels` in the same
-- form. Sv32.antt has the walk of the architecture.
use emuriscv.Base.{ℕ, zero, suc, ◌+◌, ◌*◌, ◌/◌, ◌%◌, ◌^◌, ◌≤◌, ◌<◌, ◌≡◌, ◌≢◌, ◌⊎◌, arith}
use emuriscv.Base.{bit_and, ok, u32, shr}
use emuriscv.Bits.{bit_and_mask, bit_and-high, bit_or_comm, bit_or-shifted}
use emuriscv.Machine.{State}
use emuriscv.Memory.Translate.{Translation, translated, page_fault, not_stored, read_word_physical}
use emuriscv.Memory.Translate.{leaf_address}

-- The address of the entry for a virtual address in the table at `table`, with `left` levels
-- below it.
abbrev pub entry_address : ℕ → ℕ → ℕ → ℕ
entry_address table va left = u32 (table + va / 2 ^ (12 + 10 * left) % 2 ^ 10 * 4)

-- The page of an entry, in the 32 bits of a physical address that the emulator has.
abbrev pub entry_page : ℕ → ℕ
entry_page pte = u32 (pte / 2 ^ 10 * 2 ^ 12)

abbrev pub IsValidEntry : ℕ → Type 0
IsValidEntry pte = pte % 2 ≡ 1

abbrev pub permissions : ℕ → ℕ
permissions pte = pte / 2 % 2 ^ 3

-- Writable and not readable, which the architecture reserves.
abbrev pub IsReserved : ℕ → Type 0
IsReserved pte = (permissions pte ≡ 2) ⊎ (permissions pte ≡ 6)

-- The walk from a table with a number of levels left. Where it is out of levels, at an entry of the
-- last table that points on, it has no translation to give.
pub data Walk (state : State) (va : ℕ) : ℕ → ℕ → Translation → Type 0 where
  out_of_levels : (table : ℕ) → Walk state va zero table not_stored
  invalid :
      (left table pte : ℕ)
      → read_word_physical state (entry_address table va left) ≡ ok pte
      → pte % 2 ≡ 0
      → Walk state va (suc left) table page_fault
  reserved :
      (left table pte : ℕ)
      → read_word_physical state (entry_address table va left) ≡ ok pte
      → IsValidEntry pte
      → IsReserved pte
      → Walk state va (suc left) table page_fault
  leaf :
      (left table pte : ℕ)
      → read_word_physical state (entry_address table va left) ≡ ok pte
      → IsValidEntry pte
      → permissions pte ≢ 0
      → ¬ IsReserved pte
      → (page offset : ℕ) → page ≡ entry_page pte / 2 ^ (12 + 10 * left)
      → offset ≡ va % 2 ^ (12 + 10 * left)
      → Walk state va (suc left) table (translated (page * 2 ^ (12 + 10 * left) + offset))
  pointer :
      (left table pte : ℕ) (result : Translation)
      → read_word_physical state (entry_address table va left) ≡ ok pte
      → IsValidEntry pte
      → permissions pte ≡ 0
      → Walk state va left (entry_page pte) result
      → Walk state va (suc left) table result

pub valid_bit : (pte : ℕ) → bit_and pte 1 ≡ pte % 2
valid_bit pte = bit_and_mask 1 pte

pub permission_bits : (pte : ℕ) → bit_and (shr pte 1) 7 ≡ permissions pte
permission_bits pte = bit_and_mask 3 (pte / 2)

pub index_bits : (a : ℕ) → bit_and a 0x3ff ≡ a % 2 ^ 10
index_bits a = bit_and_mask 10 a

-- The offset of the virtual address under the page of the entry, a large page included.
pub leaf_address_lem :
    (va paddr left : ℕ)
    → left ≤ 1
    → paddr < 2 ^ 32
    → leaf_address va paddr (12 + 10 * left)
      ≡ paddr / 2 ^ (12 + 10 * left) * 2 ^ (12 + 10 * left) + va % 2 ^ (12 + 10 * left)
unfolding leaf_address
leaf_address_lem va paddr zero h fits = ground (
  arith,
  bit_and_mask 12 va,
  bit_and-high 12 20 paddr,
  bit_or_comm (va % 2 ^ 12) (paddr / 2 ^ 12 * 2 ^ 12),
  bit_or-shifted 12 (paddr / 2 ^ 12) (va % 2 ^ 12) (omega arith),
)
leaf_address_lem va paddr (suc zero) h fits = ground (
  arith,
  bit_and_mask 22 va,
  bit_and-high 22 10 paddr,
  bit_or_comm (va % 2 ^ 22) (paddr / 2 ^ 22 * 2 ^ 22),
  bit_or-shifted 22 (paddr / 2 ^ 22) (va % 2 ^ 22) (omega arith),
)
leaf_address_lem va paddr (suc (suc left)) h fits = absurd (omega arith)
