-- ===== src/Fdt/Emits.antt =====
-- What each call appends to the structure block.
use emuriscv.Base.{
  ℕ, ◌+◌, ◌*◌, ◌/◌, ◌≤◌, ◌≡◌, refl, sym, ap, ◌∙◌, arith, ltb, Bool-cases, inl, inr, List, [], ◌∷◌,
  ◌++◌, length,
}
use mathlib.Core.Path.{subst}
use mathlib.Core.List.{append_assoc, append-nil}
use emuriscv.Fdt.State.{
  FdtState, max_int, fdt_alloc_len, fdt_put32, fdt_put_data, fdt_put_words, put_string_offset,
  fdt_get_string_offset, padding,
}
use emuriscv.Fdt.Strings.{NulFree, IsName, IsName-append, IsTable, Placed, length-append}
use emuriscv.Fdt.Lookup.{fdt_get_string_offset-Placed}
use emuriscv.Fdt.Reader.{be32, padded, length-padded, padding_lem}
use emuriscv.Fdt.RoundTrip.{length-be32}

-- The two buffers are as long as the state says, and no longer than what is allocated.
pub record IsBuffer (s : FdtState) : Type 0 where
  pub table : IsTable s
  pub full : length s.tab ≡ s.tab_len * 4
  pub room : s.tab_len ≤ s.tab_size

-- From `s` to `t`, `bytes` are appended to the structure block, and strings to the table.
pub record Emits (s t : FdtState) (bytes : List ℕ) : Type 0 where
  pub buffer : IsBuffer t
  pub more : List ℕ
  pub longer : t.string_table ≡ s.string_table ++ more
  pub appended : t.tab ≡ s.tab ++ bytes
  pub same_count : t.open_node_count ≡ s.open_node_count

pub Emits-trans : {s t u : FdtState} {a b : List ℕ} → Emits s t a → Emits t u b → Emits s u (a ++ b)
Emits-trans {s} {t} {u} {a} {b} h k = record {
  buffer = k.buffer;
  more = h.more ++ k.more;
  longer = k.longer ∙ ap (λ x. x ++ k.more) h.longer ∙ append_assoc s.string_table h.more k.more;
  appended = k.appended ∙ ap (λ x. x ++ b) h.appended ∙ append_assoc s.tab a b;
  same_count = k.same_count ∙ h.same_count;
}

-- The allocation changes the size only, to one that is large enough.
fdt_alloc_len_lem :
    (s : FdtState) (len : ℕ)
    → (n : ℕ) × (fdt_alloc_len s len ≡ record s { tab_size = n }) × (len ≤ n)
unfolding fdt_alloc_len max_int
fdt_alloc_len_lem s len = elim (Bool-cases (ltb s.tab_size len)) [
  | inl e ↦ (max_int len (s.tab_size * 3 / 2), rw e refl, ground arith)
  | inr e ↦ (s.tab_size, rw e refl, ground arith)
]

IsTable-same :
    (s : FdtState) (tab : List ℕ) (len size : ℕ)
    → IsTable s
    → IsTable (record s { tab = tab; tab_len = len; tab_size = size })
IsTable-same s tab len size h = record {
  names = h.names;
  text = h.text;
  nul_free = h.nul_free;
  size = h.size;
  room = h.room;
}

stored :
    (s : FdtState) (bytes : List ℕ) (words size : ℕ)
    → IsBuffer s
    → length bytes ≡ words * 4
    → s.tab_len + words ≤ size
    → Emits s
        (record s { tab = s.tab ++ bytes; tab_len = s.tab_len + words; tab_size = size })
        bytes
stored s bytes words size h len room = record {
  buffer = record {
    table = IsTable-same s (s.tab ++ bytes) (s.tab_len + words) size h.table;
    full = omega (arith, length-append s.tab bytes, h.full);
    room = room;
  };
  more = [];
  longer = sym (append-nil s.string_table);
  appended = refl;
  same_count = refl;
}

pub fdt_put32-Emits : (s : FdtState) (v : ℕ) → IsBuffer s → Emits s (fdt_put32 s v) (be32 v)
unfolding fdt_put32
fdt_put32-Emits s v h =
    let (n, e, room) = fdt_alloc_len_lem s (s.tab_len + 1) in
    rw e (stored s (be32 v) 1 n h (omega (arith, length-be32 v)) room)

pub fdt_put_data-Emits :
    (s : FdtState) (bytes : List ℕ)
    → IsBuffer s
    → Emits s (fdt_put_data s bytes (length bytes)) (padded bytes)
unfolding fdt_put_data
fdt_put_data-Emits s bytes h =
    let words = (length bytes + 3) / 4 in
    let (n, e, room) = fdt_alloc_len_lem s (s.tab_len + words) in
    rw e (stored s (padded bytes) words n h (length-padded bytes) room)

-- The words one after the other, each with its high byte first.
pub be32_words : List ℕ → List ℕ
be32_words [] = []
be32_words (v ∷ tab) = be32 v ++ be32_words tab

pub length-be32_words : (tab : List ℕ) → length (be32_words tab) ≡ length tab * 4
unfolding be32_words
length-be32_words [] = omega arith
length-be32_words (v ∷ tab) =
    omega (arith, length-append (be32 v) (be32_words tab), length-be32 v, length-be32_words tab)

pub padded-be32_words : (tab : List ℕ) → padded (be32_words tab) ≡ be32_words tab
padded-be32_words tab =
    let none_left : padding (length (be32_words tab)) ≡ 0 =
      omega (arith, padding_lem (length (be32_words tab)), length-be32_words tab) in
    rw none_left (append-nil (be32_words tab))

pub fdt_put_words-Emits :
    (s : FdtState) (tab : List ℕ) → IsBuffer s → Emits s (fdt_put_words s tab) (be32_words tab)
unfolding fdt_put_words be32_words
fdt_put_words-Emits s [] h = record {
  buffer = h;
  more = [];
  longer = sym (append-nil s.string_table);
  appended = sym (append-nil s.tab);
  same_count = refl;
}
fdt_put_words-Emits s (v ∷ tab) h =
    let first = fdt_put32-Emits s v h in
    Emits-trans first (fdt_put_words-Emits (fdt_put32 s v) tab first.buffer)

placed-Emits :
    (s t : FdtState) (name : List ℕ) (offset : ℕ)
    → IsBuffer s
    → Placed s name (t, offset)
    → Emits s t []
placed-Emits s t name offset h p = record {
  buffer = record {
    table = p.table;
    full = omega (arith, ap length p.same_tab, h.full, p.same_len);
    room = omega (arith, h.room, p.same_len, p.same_size);
  };
  more = p.more;
  longer = p.longer;
  appended = p.same_tab ∙ sym (append-nil s.tab);
  same_count = p.same_count;
}

-- A name is placed, and its offset is put.
pub put_string_offset-Emits :
    (s : FdtState) (name : List ℕ)
    → IsBuffer s
    → NulFree name
    → (offset : ℕ) × Emits s (put_string_offset s name) (be32 offset)
      × IsName ((put_string_offset s name).string_table) offset name
unfolding put_string_offset
put_string_offset-Emits s name h k =
    let r = fdt_get_string_offset s name in
    let p = fdt_get_string_offset-Placed s name h.table k in
    let placed = placed-Emits s (r.0) name (r.1) h p in
    let put = fdt_put32-Emits (r.0) (r.1) placed.buffer in
    (
      r.1,
      Emits-trans placed put,
      subst (λ table. IsName table (r.1) name) (sym put.longer)
          (IsName-append ((r.0).string_table) (r.1) name put.more p.found),
    )
