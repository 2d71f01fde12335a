-- ===== src/Fdt/State.antt =====
-- `FDTState` and the functions of fdt.c that write the structure block and the string table.
-- `malloc` and `realloc` are taken to succeed, since the code does not test them. The host stores
-- words with the low byte first.
use emuriscv.Base.{
  ℕ, zero, suc, ◌+◌, ◌*◌, ◌/◌, ◌%◌, ◌^◌, ltb, if◌then◌else◌, bit_and, bit_or, shl32, shr, add32,
  sub32, u32, List, [], ◌∷◌, ◌++◌, length, Option, none, some,
}
use emuriscv.Fdt.Text.{codes, drop, take, zeros, c_string, strlen, same_text, with_nul, hex}

-- `tab` holds the bytes of the first `tab_len` words at the pointer, and `string_table` those of
-- the first `string_table_len` characters.
pub record FdtState : Type 0 where
  pub tab : List ℕ
  pub tab_len : ℕ
  pub tab_size : ℕ
  pub open_node_count : ℕ
  pub string_table : List ℕ
  pub string_table_len : ℕ
  pub string_table_size : ℕ

unfoldable pub fdt_init : FdtState
fdt_init = record {
  tab = [];
  tab_len = 0;
  tab_size = 0;
  open_node_count = 0;
  string_table = [];
  string_table_len = 0;
  string_table_size = 0;
}

unfoldable pub max_int : ℕ → ℕ → ℕ
max_int a b = if ltb b a then a else b

unfoldable pub fdt_alloc_len : FdtState → ℕ → FdtState
unfolding max_int
fdt_alloc_len s len =
    if ltb s.tab_size len then record s { tab_size = max_int len (s.tab_size * 3 / 2) } else s

unfoldable pub bswap_32 : ℕ → ℕ
bswap_32 v =
    bit_or
      (bit_or (bit_or (shr (bit_and v 0xff000000) 24) (shr (bit_and v 0xff0000) 8))
        (shl32 (bit_and v 0xff00) 8))
      (shl32 (bit_and v 0xff) 24)

unfoldable pub cpu_to_be32 : ℕ → ℕ
cpu_to_be32 v = bswap_32 v

-- The four bytes that a store of a word leaves in memory.
unfoldable pub word_bytes : ℕ → List ℕ
word_bytes w = w % 2 ^ 8 ∷ w / 2 ^ 8 % 2 ^ 8 ∷ w / 2 ^ 16 % 2 ^ 8 ∷ w / 2 ^ 24 % 2 ^ 8 ∷ []

unfoldable pub fdt_put32 : FdtState → ℕ → FdtState
unfolding fdt_alloc_len
fdt_put32 s v =
    let s' = fdt_alloc_len s (s.tab_len + 1) in
    record s' { tab = s'.tab ++ word_bytes (cpu_to_be32 v); tab_len = s'.tab_len + 1 }

-- `-len & 3`.
unfoldable pub padding : ℕ → ℕ
padding len = bit_and (sub32 0 len) 3

-- `bytes` is the `len` bytes at the pointer.
unfoldable pub fdt_put_data : FdtState → List ℕ → ℕ → FdtState
unfolding fdt_alloc_len padding
fdt_put_data s bytes len =
    let len1 = (len + 3) / 4 in
    let s' = fdt_alloc_len s (s.tab_len + len1) in
    record s' { tab = s'.tab ++ (bytes ++ zeros (padding len)); tab_len = s'.tab_len + len1 }

abbrev pub fdt_begin_node_tag : ℕ
fdt_begin_node_tag = 1

abbrev pub fdt_end_node_tag : ℕ
fdt_end_node_tag = 2

abbrev pub fdt_prop_tag : ℕ
fdt_prop_tag = 3

abbrev pub fdt_end_tag : ℕ
fdt_end_tag = 9

unfoldable pub fdt_begin_node : FdtState → List ℕ → FdtState
unfolding fdt_put32 fdt_put_data
fdt_begin_node s name =
    let s' = fdt_put_data (fdt_put32 s fdt_begin_node_tag) (with_nul name) (length name + 1) in
    record s' { open_node_count = add32 s'.open_node_count 1 }

-- `snprintf` cuts the text to the 255 characters that the buffer holds before its NUL.
unfoldable pub fdt_begin_node_num : FdtState → List ℕ → ℕ → FdtState
unfolding fdt_begin_node
fdt_begin_node_num s name n = fdt_begin_node s (take 255 (name ++ (codes "@" ++ hex 16 n)))

unfoldable pub fdt_end_node : FdtState → FdtState
unfolding fdt_put32
fdt_end_node s =
    let s' = fdt_put32 s fdt_end_node_tag in
    record s' { open_node_count = sub32 s'.open_node_count 1 }

-- The loop over the strings from `pos` on. Each round is at least one byte further, so the number
-- of bytes is enough fuel.
unfoldable pub find_string : ℕ → List ℕ → ℕ → ℕ → List ℕ → Option ℕ
find_string zero table len pos name = none
find_string (suc fuel) table len pos name =
    let here = drop pos table in
    let later = find_string fuel table len (pos + strlen here + 1) name in
    if ltb pos len then if same_text (c_string here) name then some pos else later else none

-- The place of a new string, at the end of the table.
unfoldable pub add_string : FdtState → List ℕ → FdtState × ℕ
unfolding max_int
add_string s name =
    let name_size = length name + 1 in
    let new_len = s.string_table_len + name_size in
    let new_size = max_int new_len (s.string_table_size * 3 / 2) in
    let pos = s.string_table_len in
    (
      record s {
        string_table = s.string_table ++ with_nul name;
        string_table_len = new_len;
        string_table_size =
            if ltb s.string_table_size new_len then new_size else s.string_table_size;
      },
      pos,
    )

unfoldable pub fdt_get_string_offset : FdtState → List ℕ → FdtState × ℕ
unfolding find_string add_string
fdt_get_string_offset s name =
    elim (find_string s.string_table_len s.string_table s.string_table_len 0 name) [
      | some pos ↦ (s, pos)
      | none ↦ add_string s name
    ]

-- The arguments are evaluated before the call, so the string is placed before its offset is put.
unfoldable pub put_string_offset : FdtState → List ℕ → FdtState
unfolding fdt_get_string_offset fdt_put32
put_string_offset s name = let (s', pos) = fdt_get_string_offset s name in fdt_put32 s' pos

unfoldable pub fdt_prop : FdtState → List ℕ → List ℕ → FdtState
unfolding put_string_offset fdt_put32 fdt_put_data
fdt_prop s prop_name bytes =
    fdt_put_data (put_string_offset (fdt_put32 (fdt_put32 s fdt_prop_tag) (length bytes)) prop_name)
      bytes (length bytes)

-- The loop over the words.
unfoldable pub fdt_put_words : FdtState → List ℕ → FdtState
unfolding fdt_put32
fdt_put_words s [] = s
fdt_put_words s (v ∷ tab) = fdt_put_words (fdt_put32 s v) tab

unfoldable pub fdt_prop_tab_u32 : FdtState → List ℕ → List ℕ → FdtState
unfolding put_string_offset fdt_put32 fdt_put_words
fdt_prop_tab_u32 s prop_name tab =
    fdt_put_words
      (put_string_offset (fdt_put32 (fdt_put32 s fdt_prop_tag) (length tab * 4)) prop_name) tab

unfoldable pub fdt_prop_u32 : FdtState → List ℕ → ℕ → FdtState
unfolding fdt_prop_tab_u32
fdt_prop_u32 s prop_name val = fdt_prop_tab_u32 s prop_name (val ∷ [])

unfoldable pub fdt_prop_tab_u64 : FdtState → List ℕ → ℕ → FdtState
unfolding fdt_prop_tab_u32
fdt_prop_tab_u64 s prop_name v0 = fdt_prop_tab_u32 s prop_name (u32 (v0 / 2 ^ 32) ∷ u32 v0 ∷ [])

unfoldable pub fdt_prop_tab_u64_2 : FdtState → List ℕ → ℕ → ℕ → FdtState
unfolding fdt_prop_tab_u32
fdt_prop_tab_u64_2 s prop_name v0 v1 =
    fdt_prop_tab_u32 s prop_name (u32 (v0 / 2 ^ 32) ∷ u32 v0 ∷ u32 (v1 / 2 ^ 32) ∷ u32 v1 ∷ [])

unfoldable pub fdt_prop_str : FdtState → List ℕ → List ℕ → FdtState
unfolding fdt_prop
fdt_prop_str s prop_name str = fdt_prop s prop_name (with_nul str)

-- The arguments up to NULL, each with its NUL, one after the other.
unfoldable pub join_strings : List (List ℕ) → List ℕ
join_strings [] = []
join_strings (ptr ∷ rest) = with_nul ptr ++ join_strings rest

unfoldable pub fdt_prop_tab_str : FdtState → List ℕ → List (List ℕ) → FdtState
unfolding fdt_prop join_strings
fdt_prop_tab_str s prop_name strings = fdt_prop s prop_name (join_strings strings)
