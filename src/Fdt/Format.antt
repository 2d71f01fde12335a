-- ===== src/Fdt/Format.antt =====
-- A reader for the structure block, as the format is specified: big-endian words, names up to a
-- NUL, values of a stated length, each filled up to a multiple of four bytes.
use emuriscv.Base.{
  ℕ, zero, suc, ◌+◌, ◌*◌, ◌/◌, ◌^◌, ◌==◌, if◌then◌else◌, List, [], ◌∷◌, Option, none, some, length,
}
use mathlib.Core.Option
use emuriscv.Fdt.Text.{drop, take, c_string, strlen}

-- What the block says, with the names of the properties in place of their offsets.
pub data Event : Type 0 where
  begin_node : List ℕ → Event
  end_node : Event
  prop : List ℕ → List ℕ → Event

abbrev pub round_4 : ℕ → ℕ
round_4 n = (n + 3) / 4 * 4

unfoldable pub read_u32 : List ℕ → Option (ℕ × List ℕ)
read_u32 (a ∷ b ∷ c ∷ d ∷ rest) = some (a * 2 ^ 24 + b * 2 ^ 16 + c * 2 ^ 8 + d, rest)
read_u32 _ = none

unfoldable pub read_begin : List ℕ → Option (Option Event × List ℕ)
read_begin bytes =
    some (some (begin_node (c_string bytes)), drop (round_4 (strlen bytes + 1)) bytes)

unfoldable pub read_prop : List ℕ → List ℕ → Option (Option Event × List ℕ)
unfolding read_u32
read_prop strings bytes = elim (read_u32 bytes) [
  | none ↦ none
  | some (len, after_len) ↦ elim (read_u32 after_len) [
    | none ↦ none
    | some (offset, value) ↦
        some
          (some (prop (c_string (drop offset strings)) (take len value)), drop (round_4 len) value)
  ]
]

-- One token; the end token is no event.
unfoldable pub read_token : List ℕ → List ℕ → Option (Option Event × List ℕ)
unfolding read_u32 read_begin read_prop
read_token strings bytes = elim (read_u32 bytes) [
  | none ↦ none
  | some (tag, rest) ↦
      if tag == 1
      then read_begin rest
      else if tag == 2
      then some (some end_node, rest)
      else if tag == 3
      then read_prop strings rest
      else if tag == 9
      then some (none, rest)
      else none
]

-- The events up to the end token. The first argument is the fuel, one round for each token.
unfoldable pub read_struct : ℕ → List ℕ → List ℕ → Option (List Event)
unfolding read_token
read_struct zero strings bytes = none
read_struct (suc fuel) strings bytes = elim (read_token strings bytes) [
  | none ↦ none
  | some (none, rest) ↦ some []
  | some (some e, rest) ↦ Option.map (λ es. e ∷ es) (read_struct fuel strings rest)
]

-- A field of the header.
unfoldable pub read_field : ℕ → List ℕ → Option ℕ
unfolding read_u32
read_field pos block = Option.map (λ r. r.0) (read_u32 (drop pos block))

-- A whole block: the header says where the structure and the strings lie. There are no more tokens
-- than bytes.
unfoldable pub read_fdt : List ℕ → Option (List Event)
unfolding read_field read_struct
read_fdt block = elim (read_field 0 block) [
  | none ↦ none
  | some magic ↦ elim (read_field 8 block) [
    | none ↦ none
    | some off_dt_struct ↦ elim (read_field 12 block) [
      | none ↦ none
      | some off_dt_strings ↦ elim (read_field 32 block) [
        | none ↦ none
        | some size_dt_strings ↦
            if magic == 0xd00dfeed
            then read_struct (length block) (take size_dt_strings (drop off_dt_strings block))
                (drop off_dt_struct block)
            else none
      ]
    ]
  ]
]
