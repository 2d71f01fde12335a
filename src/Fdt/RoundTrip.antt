-- ===== src/Fdt/RoundTrip.antt =====
-- `read_struct` undoes what a structure block spells.
use emuriscv.Base.{
  ℕ, zero, suc, ◌+◌, ◌≤◌, ◌<◌, ◌==◌, if◌then◌else◌, ◌≡◌, refl, ap, ◌∙◌, arith, List, [], ◌∷◌, ◌++◌,
  length, Option, none, some, IsWord,
}
use mathlib.Core.List.{append_assoc}
use emuriscv.Fdt.Text.{drop, take, zeros, c_string, with_nul}
use emuriscv.Fdt.State.{padding}
use emuriscv.Fdt.Swap.{be32_bytes}
use emuriscv.Fdt.Format.{
  Event, begin_node, end_node, prop, read_begin, read_prop, read_token, read_struct, read_u32,
  round_4,
}
use emuriscv.Fdt.Strings.{NulFree, IsName, c_string-IsName, c_string-name, length-append}
use emuriscv.Fdt.Reader.{
  be32, padded, Spells, spells_nothing, spells_begin, spells_end, spells_prop, length-padded,
  read_u32-be32, drop-padded, take-padded,
}

c_string-padded :
    (name rest : List ℕ) → NulFree name → c_string (padded (with_nul name) ++ rest) ≡ name
c_string-padded name rest h =
    let pad = zeros (padding (length (with_nul name))) in
    let shape : padded (with_nul name) ++ rest ≡ name ++ (0 ∷ (pad ++ rest)) =
      append_assoc (with_nul name) pad rest ∙ append_assoc name (0 ∷ []) (pad ++ rest) in
    rw shape (c_string-name name (pad ++ rest) h)

-- A token from the tag on.
by_tag : List ℕ → ℕ → List ℕ → Option (Option Event × List ℕ)
by_tag table tag rest =
    if tag == 1
    then read_begin rest
    else if tag == 2
    then some (some end_node, rest)
    else if tag == 3
    then read_prop table rest
    else if tag == 9
    then some (none, rest)
    else none

read_token_lem :
    (table bytes rest : List ℕ) (tag : ℕ)
    → read_u32 bytes ≡ some (tag, rest)
    → read_token table bytes ≡ by_tag table tag rest
unfolding read_token by_tag
read_token_lem table bytes rest tag h = rw (h, read_token) refl

read_begin_lem :
    (name rest : List ℕ)
    → NulFree name
    → read_begin (padded (with_nul name) ++ rest) ≡ some (some (begin_node name), rest)
unfolding read_begin
read_begin_lem name rest h =
    let size : length name + 1 ≡ length (with_nul name) =
      omega (arith, length-append name (0 ∷ [])) in
    let text = c_string-padded name rest h in
    let next : drop (round_4 (length name + 1)) (padded (with_nul name) ++ rest) ≡ rest =
      rw size (drop-padded (with_nul name) rest) in
    rw (text, next) refl

token_begin :
    (table name rest : List ℕ)
    → NulFree name
    → read_token table (be32 1 ++ (padded (with_nul name) ++ rest))
      ≡ some (some (begin_node name), rest)
unfolding by_tag
token_begin table name rest h =
    read_token_lem table _ (padded (with_nul name) ++ rest) 1 (read_u32-be32 1 _ (omega arith))
    ∙ read_begin_lem name rest h

token_end : (table rest : List ℕ) → read_token table (be32 2 ++ rest) ≡ some (some end_node, rest)
unfolding by_tag
token_end table rest = read_token_lem table _ rest 2 (read_u32-be32 2 rest (omega arith))

token_stop : (table rest : List ℕ) → read_token table (be32 9 ++ rest) ≡ some (none, rest)
unfolding by_tag
token_stop table rest = read_token_lem table _ rest 9 (read_u32-be32 9 rest (omega arith))

read_prop_lem :
    (table bytes after_len value : List ℕ) (len offset : ℕ)
    → read_u32 bytes ≡ some (len, after_len)
    → read_u32 after_len ≡ some (offset, value)
    → read_prop table bytes
      ≡ some (some (prop (c_string (drop offset table)) (take len value)), drop (round_4 len) value)
unfolding read_prop
read_prop_lem table bytes after_len value len offset h k = rw (h, k, read_prop) refl

token_prop :
    (table : List ℕ) (offset : ℕ) (name value rest : List ℕ)
    → IsName table offset name
    → IsWord offset
    → IsWord (length value)
    → read_token table (be32 3 ++ (be32 (length value) ++ (be32 offset ++ (padded value ++ rest))))
      ≡ some (some (prop name value), rest)
unfolding by_tag
token_prop table offset name value rest h small short =
    let after_len = be32 offset ++ (padded value ++ rest) in
    read_token_lem table _ (be32 (length value) ++ after_len) 3 (read_u32-be32 3 _ (omega arith))
    ∙ read_prop_lem table (be32 (length value) ++ after_len) after_len (padded value ++ rest)
        (length value) offset (read_u32-be32 (length value) after_len short)
        (read_u32-be32 offset (padded value ++ rest) small)
    ∙ rw (c_string-IsName table offset name h, take-padded value rest, drop-padded value rest) refl

offset_lt :
    (table : List ℕ) (offset : ℕ) (name : List ℕ) → IsName table offset name → offset < length table
offset_lt table offset name h = omega (
  arith,
  h.place,
  ap length h.text,
  length-append h.before (name ++ (0 ∷ h.after)),
  length-append name (0 ∷ h.after),
)

read_step :
    (fuel : ℕ) (table bytes rest : List ℕ) (e : Event) (es : List Event)
    → read_token table bytes ≡ some (some e, rest)
    → read_struct fuel table rest ≡ some es
    → read_struct (suc fuel) table bytes ≡ some (e ∷ es)
unfolding read_struct
read_step fuel table bytes rest e es h k = rw (h, k, read_struct) refl

read_stop :
    (fuel : ℕ) (table bytes rest : List ℕ)
    → read_token table bytes ≡ some (none, rest)
    → read_struct (suc fuel) table bytes ≡ some []
unfolding read_struct
read_stop fuel table bytes rest h = rw (h, read_struct) refl

pub length-be32 : (v : ℕ) → length (be32 v) ≡ 4
length-be32 v = rw (be32_bytes v) refl

-- The parts of a property are no longer than the block.
prop_fits :
    (a b c value bytes : List ℕ)
    → IsWord (length (a ++ (b ++ (c ++ (padded value ++ bytes)))))
    → IsWord (length bytes) × IsWord (length value)
prop_fits a b c value bytes h =
    let total : length (a ++ (b ++ (c ++ (padded value ++ bytes))))
        ≡ length a + (length b + (length c + (round_4 (length value) + length bytes))) =
      omega (
        arith,
        length-append a (b ++ (c ++ (padded value ++ bytes))),
        length-append b (c ++ (padded value ++ bytes)),
        length-append c (padded value ++ bytes),
        length-append (padded value) bytes,
        length-padded value,
      ) in
    (omega (arith, total), omega (arith, total))

-- Where the block and the string table are shorter than 2 ^ 32 bytes, the reader gets the events
-- from the bytes that spell them, followed by the end token and anything after it, if its fuel is
-- more than the number of events.
pub read_struct-Spells :
    {table : List ℕ} {es : List Event} {bytes : List ℕ} (fuel : ℕ) (rest : List ℕ)
    → Spells table es bytes
    → IsWord (length table)
    → IsWord (length bytes)
    → length es ≤ fuel
    → read_struct (suc fuel) table (bytes ++ (be32 9 ++ rest)) ≡ some es
read_struct-Spells {table} fuel rest spells_nothing small short le =
    read_stop fuel table _ rest (token_stop table rest)
read_struct-Spells {table} zero rest (spells_begin name h k) small short le = absurd (omega arith)
read_struct-Spells {table} (suc fuel) rest (spells_begin {es} {bytes} name h k) small short le =
    let shape =
      append_assoc (be32 1) (padded (with_nul name) ++ bytes) (be32 9 ++ rest)
      ∙ ap (λ t. be32 1 ++ t) (append_assoc (padded (with_nul name)) bytes (be32 9 ++ rest)) in
    let fits : IsWord (length bytes) = omega (
      arith,
      length-append (be32 1) (padded (with_nul name) ++ bytes),
      length-append (padded (with_nul name)) bytes,
    ) in
    rw shape (
      read_step _ table _ _ _ _ (token_begin table name (bytes ++ (be32 9 ++ rest)) h)
        (read_struct-Spells fuel rest k small fits (omega arith)))
read_struct-Spells {table} zero rest (spells_end k) small short le = absurd (omega arith)
read_struct-Spells {table} (suc fuel) rest (spells_end {es} {bytes} k) small short le =
    let fits : IsWord (length bytes) = omega (arith, length-append (be32 2) bytes) in
    rw (append_assoc (be32 2) bytes (be32 9 ++ rest)) (
      read_step _ table _ _ _ _ (token_end table (bytes ++ (be32 9 ++ rest)))
        (read_struct-Spells fuel rest k small fits (omega arith)))
read_struct-Spells {table} zero rest (spells_prop offset name value h k) small short le =
    absurd (omega arith)
read_struct-Spells {table} (suc fuel) rest (spells_prop {es} {bytes} offset name value h k) small
      short le =
    let shape : be32 3
          ++ (be32 (length value) ++ (be32 offset ++ (padded value ++ bytes)))
          ++ (be32 9 ++ rest)
        ≡ be32 3
          ++ (be32 (length value)
              ++ (be32 offset ++ (padded value ++ (bytes ++ (be32 9 ++ rest))))) =
      simp append_assoc refl in
    let (fits, size) = prop_fits (be32 3) (be32 (length value)) (be32 offset) value bytes short in
    rw shape (
      read_step _ table _ _ _ _
        (token_prop table offset name value (bytes ++ (be32 9 ++ rest)) h
          (omega (arith, offset_lt table offset name h)) size)
        (read_struct-Spells fuel rest k small fits (omega arith)))

-- Every event takes at least a byte.
pub Spells-length :
    {table : List ℕ} {es : List Event} {bytes : List ℕ}
    → Spells table es bytes
    → length es ≤ length bytes
Spells-length spells_nothing = omega arith
Spells-length (spells_begin {es} {bytes} name h k) = omega (
  arith,
  Spells-length k,
  length-be32 1,
  length-append (be32 1) (padded (with_nul name) ++ bytes),
  length-append (padded (with_nul name)) bytes,
)
Spells-length (spells_end {es} {bytes} k) =
    omega (arith, Spells-length k, length-be32 2, length-append (be32 2) bytes)
Spells-length (spells_prop {es} {bytes} offset name value h k) =
    let tail = be32 (length value) ++ (be32 offset ++ (padded value ++ bytes)) in
    omega (
      arith,
      Spells-length k,
      length-be32 3,
      length-append (be32 3) tail,
      length-append (be32 (length value)) (be32 offset ++ (padded value ++ bytes)),
      length-append (be32 offset) (padded value ++ bytes),
      length-append (padded value) bytes,
    )
