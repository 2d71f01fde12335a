-- ===== src/Fdt/Lookup.antt =====
-- `fdt_get_string_offset` finds or adds a name.
use emuriscv.Base.{
  ℕ, zero, suc, ◌+◌, ◌≤◌, ◌≡◌, refl, sym, ap, ◌∙◌, arith, List, [], ◌∷◌, ◌++◌, Option, none, some,
}
use mathlib.Core.List.{append-nil}
use emuriscv.Fdt.Text.{drop, strlen, with_nul}
use emuriscv.Fdt.State.{FdtState, find_string, add_string, max_int, fdt_get_string_offset}
use emuriscv.Fdt.Strings.{
  NulFree, IsName, IsTable, Placed, Found, find_string-Found, join-append, AllNulFree-append,
  length-append,
}

found-Placed :
    (s : FdtState) (name : List ℕ) (pos : ℕ)
    → IsTable s
    → IsName s.string_table pos name
    → Placed s name (s, pos)
found-Placed s name pos h k = record {
  more = [];
  longer = sym (append-nil s.string_table);
  table = h;
  found = k;
  same_tab = refl;
  same_len = refl;
  same_size = refl;
  same_count = refl;
}

add_string-Placed :
    (s : FdtState) (name : List ℕ) → IsTable s → NulFree name → Placed s name (add_string s name)
unfolding add_string max_int
add_string-Placed s name h k = record {
  more = with_nul name;
  longer = refl;
  table = record {
    names = h.names ++ (name ∷ []);
    text = ap (λ t. t ++ with_nul name) h.text ∙ sym (join-append h.names name);
    nul_free = AllNulFree-append h.names name h.nul_free k;
    size =
        omega (
          arith,
          h.size,
          length-append s.string_table (with_nul name),
          length-append name (0 ∷ []),
        );
    room = ground arith;
  };
  found = record {
    before = s.string_table;
    after = [];
    text = refl;
    place = sym h.size;
    nul_free = k;
  };
  same_tab = refl;
  same_len = refl;
  same_size = refl;
  same_count = refl;
}

result-Placed :
    (o : Option ℕ) (s : FdtState) (name : List ℕ)
    → IsTable s
    → NulFree name
    → Found s.string_table name o
    → Placed s name (elim o [ some pos ↦ (s, pos) | none ↦ add_string s name ])
result-Placed none s name h k f = add_string-Placed s name h k
result-Placed (some pos) s name h k f = found-Placed s name pos h f

-- Where the string table is a sequence of names, each with its NUL, and the new name has no NUL
-- byte, `fdt_get_string_offset` returns an offset at which the name lies in the table that it
-- leaves. That table is again such a sequence, it starts with the old table, and the structure
-- block is as it was.
pub fdt_get_string_offset-Placed :
    (s : FdtState) (name : List ℕ)
    → IsTable s
    → NulFree name
    → Placed s name (fdt_get_string_offset s name)
unfolding fdt_get_string_offset
fdt_get_string_offset-Placed s name h k =
    result-Placed (find_string s.string_table_len s.string_table s.string_table_len 0 name) s name h
      k
      (find_string-Found s.string_table_len h.names s.string_table [] 0 s.string_table_len name
        h.nul_free h.text refl h.size)

-- The loop of `fdt_get_string_offset` ends: with as much fuel as there are bytes from `pos` to the
-- end of the table, more fuel gives the same result.
pub find_string-fuel :
    (fuel extra : ℕ) (table : List ℕ) (len pos : ℕ) (name : List ℕ)
    → len ≤ pos + fuel
    → fuel ≤ extra
    → find_string extra table len pos name ≡ find_string fuel table len pos name
unfolding find_string
find_string-fuel zero zero table len pos name h le = refl
find_string-fuel zero (suc extra) table len pos name h le = ground arith
find_string-fuel (suc fuel) zero table len pos name h le = absurd (omega arith)
find_string-fuel (suc fuel) (suc extra) table len pos name h le =
    rw
      (find_string-fuel fuel extra table len (pos + strlen (drop pos table) + 1) name (omega arith)
        (omega arith))
      refl
