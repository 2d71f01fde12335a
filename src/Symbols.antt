-- ===== src/Symbols.antt =====
-- The list of debug symbols: debug_symbols.h, and `add_symbol` and `get_symbol` of run_linux.c.
pub mod Table
pub mod Lookup
use Prim.Native.String.{String}
use emuriscv.Base.{ℕ, ◌≤◌, ◌<◌, ◌≡◌, ◌⊎◌, ap, arith, leb, if◌then◌else◌, List, [], ◌∷◌, ◌++◌}
use emuriscv.Base.{Outcome, ok, undefined}

-- `next` is the rest of the list.
pub record Symbol : Type 0 where
  pub offset : ℕ
  pub name : String

-- `tail` is the last symbol of the list in every call, or null where the list is empty; `mallocz` is
-- taken to succeed.
unfoldable pub add_symbol : List Symbol → ℕ → String → List Symbol
add_symbol symbols offset name = symbols ++ (record { offset = offset; name = name } ∷ [])

-- The loop, with the candidate and the list from `current` on.
unfoldable pub search_symbol : ℕ → Symbol → List Symbol → Symbol
search_symbol address candidate [] = candidate
search_symbol address candidate (current ∷ []) = candidate
search_symbol address candidate (current ∷ next ∷ rest) =
    let found = search_symbol address current (next ∷ rest) in
    if leb current.offset address then found else candidate

-- An empty list is a null pointer, through which the loop reads.
unfoldable pub get_symbol : List Symbol → ℕ → Outcome Symbol
unfolding search_symbol
get_symbol [] address = undefined
get_symbol (head ∷ rest) address = ok (search_symbol address head (head ∷ rest))

abbrev pub AllBelow : ℕ → List Symbol → Type 0
AllBelow address [] = Unit
AllBelow address (s ∷ rest) = (s.offset ≤ address) × AllBelow address rest

search_symbol_lem :
    (address : ℕ) (c a b : Symbol) (before after : List Symbol)
    → AllBelow address before
    → a.offset ≤ address
    → (address < b.offset) ⊎ (after ≡ [])
    → search_symbol address c (before ++ a ∷ b ∷ after) ≡ a
unfolding search_symbol
search_symbol_lem address c a b [] [] all at stop = ground arith
search_symbol_lem address c a b [] (d ∷ after) all at stop = ground arith
search_symbol_lem address c a b (s ∷ []) after all at stop =
    ground (arith, search_symbol_lem address s a b [] after tt at stop)
search_symbol_lem address c a b (s ∷ t ∷ before) after (s_below, all) at stop =
    ground (arith, search_symbol_lem address s a b (t ∷ before) after all at stop)

-- Where the symbols up to `a` start at or below the address, and the next one, `b`, starts above it,
-- `get_symbol` returns `a`. It returns `a` also where `b` is the last symbol, wherever `b` starts:
-- the last symbol of the list is never found.
pub get_symbol_lem :
    (address : ℕ) (a b : Symbol) (before after : List Symbol)
    → AllBelow address before
    → a.offset ≤ address
    → (address < b.offset) ⊎ (after ≡ [])
    → get_symbol (before ++ a ∷ b ∷ after) address ≡ ok a
unfolding get_symbol
get_symbol_lem address a b [] after all at stop =
    ap ok (search_symbol_lem address a a b [] after all at stop)
get_symbol_lem address a b (s ∷ before) after all at stop =
    ap ok (search_symbol_lem address s a b (s ∷ before) after all at stop)
