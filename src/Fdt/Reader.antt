-- ===== src/Fdt/Reader.antt =====
-- The reader gets back the events that a structure block spells.
use emuriscv.Base.{
  ℕ, zero, suc, ◌+◌, ◌*◌, ◌/◌, ◌%◌, ◌^◌, ◌≡◌, refl, sym, ap, ◌∙◌, arith, sub32, List, [], ◌∷◌, ◌++◌,
  length, some, IsWord,
}
use mathlib.Core.Path.{subst}
use mathlib.Core.List.{append_assoc}
use emuriscv.Bits.{bit_and_mask}
use emuriscv.Fdt.Text.{drop, take, zeros, with_nul}
use emuriscv.Fdt.State.{word_bytes, cpu_to_be32, padding}
use emuriscv.Fdt.Swap.{be32_bytes}
use emuriscv.Fdt.Format.{Event, begin_node, end_node, prop, read_u32, round_4}
use emuriscv.Fdt.Strings.{NulFree, IsName, IsName-append, drop-append, length-append}

abbrev pub be32 : ℕ → List ℕ
be32 v = word_bytes (cpu_to_be32 v)

-- Bytes filled up to a word.
abbrev pub padded : List ℕ → List ℕ
padded bytes = bytes ++ zeros (padding (length bytes))

-- `bytes` is the structure block of the events, less its end token, with names in `table`.
pub data Spells (table : List ℕ) : List Event → List ℕ → Type 0 where
  spells_nothing : Spells table [] []
  spells_begin :
      {es : List Event} {bytes : List ℕ} (name : List ℕ)
      → NulFree name
      → Spells table es bytes
      → Spells table (begin_node name ∷ es) (be32 1 ++ (padded (with_nul name) ++ bytes))
  spells_end :
      {es : List Event} {bytes : List ℕ}
      → Spells table es bytes
      → Spells table (end_node ∷ es) (be32 2 ++ bytes)
  spells_prop :
      {es : List Event} {bytes : List ℕ} (offset : ℕ) (name value : List ℕ)
      → IsName table offset name
      → Spells table es bytes
      → Spells table
          (prop name value ∷ es)
          (be32 3 ++ (be32 (length value) ++ (be32 offset ++ (padded value ++ bytes))))

pub Spells-longer :
    {table : List ℕ} {es : List Event} {bytes : List ℕ} (more : List ℕ)
    → Spells table es bytes
    → Spells (table ++ more) es bytes
Spells-longer more spells_nothing = spells_nothing
Spells-longer more (spells_begin name h k) = spells_begin name h (Spells-longer more k)
Spells-longer more (spells_end k) = spells_end (Spells-longer more k)
Spells-longer {table} more (spells_prop offset name value h k) =
    spells_prop offset name value (IsName-append table offset name more h) (Spells-longer more k)

pub Spells-append :
    {table : List ℕ} {es fs : List Event} {bytes rest : List ℕ}
    → Spells table es bytes
    → Spells table fs rest
    → Spells table (es ++ fs) (bytes ++ rest)
Spells-append spells_nothing l = l
Spells-append {rest} (spells_begin {bytes} name h k) l =
    subst (Spells _ _)
      (sym (
        append_assoc (be32 1) (padded (with_nul name) ++ bytes) rest
        ∙ ap (λ t. be32 1 ++ t) (append_assoc (padded (with_nul name)) bytes rest)))
      (spells_begin name h (Spells-append k l))
Spells-append {rest} (spells_end {bytes} k) l =
    subst (Spells _ _) (sym (append_assoc (be32 2) bytes rest)) (spells_end (Spells-append k l))
Spells-append {rest} (spells_prop {bytes} offset name value h k) l =
    subst (Spells _ _) (sym (simp append_assoc refl))
      (spells_prop offset name value h (Spells-append k l))

pub padding_lem : (len : ℕ) → len + padding len ≡ round_4 len
unfolding padding
padding_lem len = omega (arith, bit_and_mask 2 (sub32 0 len))

pub length-zeros : (n : ℕ) → length (zeros n) ≡ n
length-zeros zero = refl
length-zeros (suc n) = ap suc (length-zeros n)

pub length-padded : (bytes : List ℕ) → length (padded bytes) ≡ round_4 (length bytes)
length-padded bytes =
    length-append bytes (zeros (padding (length bytes)))
    ∙ ap (λ n. length bytes + n) (length-zeros (padding (length bytes)))
    ∙ padding_lem (length bytes)

pub take-append : (xs ys : List ℕ) → take (length xs) (xs ++ ys) ≡ xs
take-append [] ys = refl
take-append (x ∷ xs) ys = ap (λ t. x ∷ t) (take-append xs ys)

pub read_u32-be32 : (v : ℕ) (rest : List ℕ) → IsWord v → read_u32 (be32 v ++ rest) ≡ some (v, rest)
unfolding read_u32
read_u32-be32 v rest h =
    let value : v / 2 ^ 24 % 2 ^ 8 * 2 ^ 24
          + v / 2 ^ 16 % 2 ^ 8 * 2 ^ 16
          + v / 2 ^ 8 % 2 ^ 8 * 2 ^ 8
          + v % 2 ^ 8
        ≡ v =
      omega arith in
    rw (be32_bytes v, value) refl

pub drop-padded :
    (bytes rest : List ℕ) → drop (round_4 (length bytes)) (padded bytes ++ rest) ≡ rest
drop-padded bytes rest = rw (sym (length-padded bytes)) (drop-append (padded bytes) rest)

pub take-padded : (bytes rest : List ℕ) → take (length bytes) (padded bytes ++ rest) ≡ bytes
take-padded bytes rest =
    rw (append_assoc bytes (zeros (padding (length bytes))) rest) (take-append bytes _)
