-- ===== src/Fdt/Describes.antt =====
-- What a state of the writer describes, and what each call adds to it.
use emuriscv.Base.{
  ℕ, ◌+◌, ◌≡◌, refl, sym, ap, ◌∙◌, arith, add32, sub32, List, [], ◌∷◌, ◌++◌, length,
}
use mathlib.Core.Path.{subst}
use mathlib.Core.List.{append_assoc, append-nil}
use emuriscv.Fdt.Text.{with_nul}
use emuriscv.Fdt.State.{
  FdtState, fdt_init, fdt_begin_node, fdt_end_node, fdt_prop, fdt_prop_tab_u32, fdt_put32,
  fdt_put_data, put_string_offset,
}
use emuriscv.Fdt.Format.{Event, begin_node, end_node, prop}
use emuriscv.Fdt.Strings.{NulFree, IsName, IsName-append, length-append}
use emuriscv.Fdt.Reader.{
  be32, padded, Spells, spells_nothing, spells_begin, spells_end, spells_prop, Spells-longer,
  Spells-append,
}
use emuriscv.Fdt.Emits.{
  IsBuffer, Emits, Emits-trans, fdt_put32-Emits, fdt_put_data-Emits, fdt_put_words-Emits,
  put_string_offset-Emits, be32_words, length-be32_words, padded-be32_words,
}

-- The open nodes after some events, as an `int` counts them.
abbrev pub open_nodes : ℕ → List Event → ℕ
open_nodes n [] = n
open_nodes n (begin_node name ∷ es) = open_nodes (add32 n 1) es
open_nodes n (end_node ∷ es) = open_nodes (sub32 n 1) es
open_nodes n (prop name value ∷ es) = open_nodes n es

pub open_nodes-append :
    (n : ℕ) (es fs : List Event) → open_nodes n (es ++ fs) ≡ open_nodes (open_nodes n es) fs
open_nodes-append n [] fs = refl
open_nodes-append n (begin_node name ∷ es) fs = open_nodes-append (add32 n 1) es fs
open_nodes-append n (end_node ∷ es) fs = open_nodes-append (sub32 n 1) es fs
open_nodes-append n (prop name value ∷ es) fs = open_nodes-append n es fs

-- The structure block spells the events with the names of the string table, both lie in buffers
-- that are large enough, and the count of open nodes is that of the events.
pub record Describes (s : FdtState) (es : List Event) : Type 0 where
  pub buffer : IsBuffer s
  pub spelled : Spells s.string_table es s.tab
  pub count : s.open_node_count ≡ open_nodes 0 es

-- An event is added by a call that appends its spelling.
added :
    (s t : FdtState) (es fs : List Event) (bytes spelling : List ℕ)
    → Describes s es
    → Emits s t bytes
    → bytes ≡ spelling
    → Spells t.string_table fs spelling
    → (n : ℕ) → n ≡ open_nodes s.open_node_count fs
    → (u : FdtState) → u ≡ record t { open_node_count = n }
    → Describes u (es ++ fs)
added s t es fs bytes spelling h k shape l n e u same =
    subst (λ v. Describes v (es ++ fs)) (sym same)
      (record {
        buffer = record {
          table = record {
            names = k.buffer.table.names;
            text = k.buffer.table.text;
            nul_free = k.buffer.table.nul_free;
            size = k.buffer.table.size;
            room = k.buffer.table.room;
          };
          full = k.buffer.full;
          room = k.buffer.room;
        };
        spelled =
            subst (λ tab. Spells t.string_table (es ++ fs) tab)
              (sym (k.appended ∙ ap (λ x. s.tab ++ x) shape))
              (Spells-append
                (subst (λ table. Spells table es s.tab) (sym k.longer)
                  (Spells-longer k.more h.spelled))
                l);
        count = e ∙ ap (λ m. open_nodes m fs) h.count ∙ sym (open_nodes-append 0 es fs);
      })

pub fdt_init-Describes : Describes fdt_init []
unfolding fdt_init
fdt_init-Describes = record {
  buffer = record {
    table = record { names = []; text = refl; nul_free = tt; size = refl; room = omega arith };
    full = omega arith;
    room = omega arith;
  };
  spelled = spells_nothing;
  count = refl;
}

-- From a state that describes some events, `fdt_begin_node` leads to one that describes them and
-- the begin of a node of that name, if the name has no NUL byte.
pub fdt_begin_node-Describes :
    (s : FdtState) (es : List Event) (name : List ℕ)
    → Describes s es
    → NulFree name
    → Describes (fdt_begin_node s name) (es ++ (begin_node name ∷ []))
unfolding fdt_begin_node
fdt_begin_node-Describes s es name h k =
    let named = with_nul name in
    let size : length name + 1 ≡ length named = omega (arith, length-append name (0 ∷ [])) in
    let tag = fdt_put32-Emits s 1 h.buffer in
    let text = fdt_put_data-Emits (fdt_put32 s 1) named tag.buffer in
    let e = Emits-trans tag text in
    rw size (
      added s (fdt_put_data (fdt_put32 s 1) named (length named)) es (begin_node name ∷ [])
        (be32 1 ++ padded named) (be32 1 ++ (padded named ++ [])) h e
        (ap (λ x. be32 1 ++ x) (sym (append-nil (padded named))))
        (spells_begin name k spells_nothing) _ (ap (λ n. add32 n 1) e.same_count) _ refl)

-- The end of a node is added in the same way; its name is not repeated.
pub fdt_end_node-Describes :
    (s : FdtState) (es : List Event)
    → Describes s es
    → Describes (fdt_end_node s) (es ++ (end_node ∷ []))
unfolding fdt_end_node
fdt_end_node-Describes s es h =
    let e = fdt_put32-Emits s 2 h.buffer in
    added s (fdt_put32 s 2) es (end_node ∷ []) (be32 2) (be32 2 ++ []) h e
      (sym (append-nil (be32 2))) (spells_end spells_nothing) _ (ap (λ n. sub32 n 1) e.same_count) _
      refl

-- The tag, the length and the offset of a property.
abbrev prop_head : FdtState → List ℕ → ℕ → FdtState
prop_head s name len = put_string_offset (fdt_put32 (fdt_put32 s 3) len) name

record HasHead (s : FdtState) (name : List ℕ) (len : ℕ) : Type 0 where
  offset : ℕ
  emits : Emits s (prop_head s name len) (be32 3 ++ (be32 len ++ be32 offset))
  found : IsName ((prop_head s name len).string_table) offset name

head_Emits :
    (s : FdtState) (name : List ℕ) (len : ℕ) → IsBuffer s → NulFree name → HasHead s name len
head_Emits s name len h k =
    let tag = fdt_put32-Emits s 3 h in
    let size = fdt_put32-Emits (fdt_put32 s 3) len tag.buffer in
    let (offset, put, found) =
      put_string_offset-Emits (fdt_put32 (fdt_put32 s 3) len) name size.buffer k in
    record { offset = offset; emits = Emits-trans tag (Emits-trans size put); found = found }

shape_lem : (a b c d : List ℕ) → (a ++ (b ++ c)) ++ d ≡ a ++ (b ++ (c ++ (d ++ [])))
shape_lem a b c d =
    append_assoc a (b ++ c) d
    ∙ ap (λ x. a ++ x) (append_assoc b c d ∙ ap (λ x. b ++ (c ++ x)) (sym (append-nil d)))

prop_added :
    (s u : FdtState) (es : List Event) (name value : List ℕ)
    → Describes s es
    → HasHead s name (length value)
    → Emits (prop_head s name (length value)) u (padded value)
    → Describes u (es ++ (prop name value ∷ []))
prop_added s u es name value h head last =
    let e = Emits-trans head.emits last in
    let offset = head.offset in
    let found : IsName u.string_table offset name =
      subst (λ table. IsName table offset name) (sym last.longer)
        (IsName-append _ offset name last.more head.found) in
    let shape : (be32 3 ++ (be32 (length value) ++ be32 offset)) ++ padded value
        ≡ be32 3 ++ (be32 (length value) ++ (be32 offset ++ (padded value ++ []))) =
      shape_lem (be32 3) (be32 (length value)) (be32 offset) (padded value) in
    added s u es (prop name value ∷ []) _ _ h e shape
      (spells_prop offset name value found spells_nothing) u.open_node_count e.same_count u refl

-- From a state that describes some events, `fdt_prop` leads to one that describes them and the
-- property with that name and those bytes, if the name has no NUL byte; both buffers are still no
-- longer than what is allocated.
pub fdt_prop-Describes :
    (s : FdtState) (es : List Event) (name value : List ℕ)
    → Describes s es
    → NulFree name
    → Describes (fdt_prop s name value) (es ++ (prop name value ∷ []))
unfolding fdt_prop
fdt_prop-Describes s es name value h k =
    let head = head_Emits s name (length value) h.buffer k in
    prop_added s _ es name value h head (fdt_put_data-Emits _ value head.emits.buffer)

-- A property of words, each with its high byte first.
pub fdt_prop_tab_u32-Describes :
    (s : FdtState) (es : List Event) (name tab : List ℕ)
    → Describes s es
    → NulFree name
    → Describes (fdt_prop_tab_u32 s name tab) (es ++ (prop name (be32_words tab) ∷ []))
unfolding fdt_prop_tab_u32
fdt_prop_tab_u32-Describes s es name tab h k =
    let head = head_Emits s name (length (be32_words tab)) h.buffer k in
    let words =
      fdt_put_words-Emits (prop_head s name (length (be32_words tab))) tab head.emits.buffer in
    rw (sym (length-be32_words tab)) (
      prop_added s _ es name (be32_words tab) h head
        (subst (Emits _ _) (sym (padded-be32_words tab)) words))
