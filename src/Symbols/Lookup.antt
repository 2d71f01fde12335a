-- ===== src/Symbols/Lookup.antt =====
-- What `get_symbol` finds in the list of `initialize_symbols`.
use emuriscv.Base.{
  inr, &&-eq-true, ℕ, ◌≤◌, ◌<◌, ◌≡◌, refl, arith, inl, ap, ltb, leb, ltb→lt, Bool, Bool-cases, true,
  ◌&&◌, List, [], ◌∷◌, ◌++◌, ok, ◌∙◌,
}
use emuriscv.Symbols.{Symbol, AllBelow, get_symbol, get_symbol_lem}
use emuriscv.Symbols.Table.{initialize_symbols, add_symbols}

abbrev pub AllAbove : ℕ → List Symbol → Type 0
AllAbove address [] = Unit
AllAbove address (s ∷ rest) = (address < s.offset) × AllAbove address rest

abbrev pub is_sorted : List Symbol → Bool
is_sorted [] = true
is_sorted (a ∷ []) = true
is_sorted (a ∷ b ∷ rest) = ltb a.offset b.offset && is_sorted (b ∷ rest)

-- The list split around an address: `found` and all before it start at or below the address, `next` and
-- all behind it above the address.
pub record Split (symbols : List Symbol) (address : ℕ) (found : Symbol) : Type 0 where
  pub before : List Symbol
  pub next : Symbol
  pub after : List Symbol
  pub splits : symbols ≡ before ++ found ∷ next ∷ after
  pub below : AllBelow address before
  pub starts : found.offset ≤ address
  pub above : AllAbove address (next ∷ after)

abbrev pub last_offset : ℕ → List Symbol → ℕ
last_offset n [] = n
last_offset n (s ∷ rest) = last_offset s.offset rest

above_lem :
    (address : ℕ) (s : Symbol) (rest : List Symbol)
    → is_sorted (s ∷ rest) ≡ true
    → address < s.offset
    → AllAbove address (s ∷ rest)
above_lem address s [] sorted h = (h, tt)
above_lem address s (t ∷ rest) sorted h =
    let both : (ltb s.offset t.offset ≡ true) × (is_sorted (t ∷ rest) ≡ true) =
      &&-eq-true _ _ sorted in
    (h, above_lem address t rest (both.1) (omega (arith, ltb→lt s.offset t.offset (both.0))))

Split-cons :
    (s t : Symbol) (rest : List Symbol) (address : ℕ) {found : Symbol}
    → s.offset ≤ address
    → Split (t ∷ rest) address found
    → Split (s ∷ t ∷ rest) address found
Split-cons s t rest address h p = record {
  before = s ∷ p.before;
  next = p.next;
  after = p.after;
  splits = ap (λ l. s ∷ l) p.splits;
  below = (h, p.below);
  starts = p.starts;
  above = p.above;
}

split :
    (s : Symbol) (rest : List Symbol) (address : ℕ)
    → is_sorted (s ∷ rest) ≡ true
    → s.offset ≤ address
    → address < last_offset s.offset rest
    → (found : Symbol) × Split (s ∷ rest) address found
split s [] address sorted h below = absurd (omega arith)
split s (t ∷ rest) address sorted h below =
    let both : (ltb s.offset t.offset ≡ true) × (is_sorted (t ∷ rest) ≡ true) =
      &&-eq-true _ _ sorted in
    elim (Bool-cases (leb t.offset address)) [
      | inl e ↦
          let (found, p) = split t rest address (both.1) (ground arith) below in
          (found, Split-cons s t rest address h p)
      | inr e ↦ (
        s,
        record {
          before = [];
          next = t;
          after = rest;
          splits = refl;
          below = tt;
          starts = h;
          above = above_lem address t rest (both.1) (ground arith);
        },
      )
    ]

get_symbol-Split :
    (symbols : List Symbol) (address : ℕ) (found : Symbol)
    → Split symbols address found
    → get_symbol symbols address ≡ ok found
get_symbol-Split symbols address found p =
    ap (λ l. get_symbol l address) p.splits
    ∙ get_symbol_lem address found p.next p.before p.after p.below p.starts (inl (p.above.0))

abbrev pub end_of_symbols : ℕ
end_of_symbols = 0x80009440

initialize_symbols-sorted : is_sorted initialize_symbols ≡ true
unfolding initialize_symbols add_symbols
initialize_symbols-sorted = refl

-- For every address below the last symbol of the list that `initialize_symbols` makes, `get_symbol`
-- returns the symbol of the list whose code has the address: it starts at or below the address, as do
-- all symbols before it, and every symbol behind it starts above the address.
pub get_symbol-initialize_symbols :
    (address : ℕ)
    → address < end_of_symbols
    → (found : Symbol) × (get_symbol initialize_symbols address ≡ ok found)
      × Split initialize_symbols address found
unfolding initialize_symbols add_symbols
get_symbol-initialize_symbols address h =
    let (found, p) = split _ _ address initialize_symbols-sorted (omega arith) h in
    (found, get_symbol-Split initialize_symbols address found p, p)
