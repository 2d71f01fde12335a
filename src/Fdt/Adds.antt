-- ===== src/Fdt/Adds.antt =====
-- The events that each call of `riscv_build_fdt` adds.
use emuriscv.Base.{
  ℕ, ◌/◌, ◌^◌, ◌≡◌, sym, Bool, true, false, leb, ◌&&◌, &&-eq-true, leb→le, if◌then◌else◌, u32, List,
  [], ◌∷◌, ◌++◌,
}
use mathlib.Core.Path.{subst}
use mathlib.Core.List.{append_assoc, append-nil}
use emuriscv.Fdt.Text.{codes, with_nul, take, hex}
use emuriscv.Fdt.State.{
  FdtState, fdt_begin_node, fdt_begin_node_num, fdt_end_node, fdt_prop, fdt_prop_tab_u32,
  fdt_prop_u32, fdt_prop_tab_u64, fdt_prop_tab_u64_2, fdt_prop_str, fdt_prop_tab_str, join_strings,
}
use emuriscv.Fdt.Build.{run_calls}
use emuriscv.Fdt.Format.{Event, begin_node, end_node, prop}
use emuriscv.Fdt.Strings.{NulFree}
use emuriscv.Fdt.Emits.{be32_words}
use emuriscv.Fdt.Describes.{
  Describes, fdt_begin_node-Describes, fdt_end_node-Describes, fdt_prop-Describes,
  fdt_prop_tab_u32-Describes,
}

-- A call adds some events to what a state describes.
pub record Adds (call : FdtState → FdtState) (es : List Event) : Type 0 where
  pub at :
      (s : FdtState) (before : List Event) → Describes s before → Describes (call s) (before ++ es)

pub nil-Adds : Adds (run_calls []) []
unfolding run_calls
nil-Adds = record { at = λ s before d. subst (Describes s) (sym (append-nil before)) d }

pub cons-Adds :
    {call : FdtState → FdtState} (calls : List (FdtState → FdtState)) {es fs : List Event}
    → Adds call es
    → Adds (run_calls calls) fs
    → Adds (run_calls (call ∷ calls)) (es ++ fs)
unfolding run_calls
cons-Adds {call} calls {es} {fs} h k = record {
  at = λ s before d.
      subst (Describes (run_calls calls (call s))) (append_assoc before es fs)
        (k.at (call s) (before ++ es) (h.at s before d));
}

-- A test for names with no NUL byte.
unfoldable pub nul_free : List ℕ → Bool
nul_free [] = true
nul_free (c ∷ name) = leb 1 c && nul_free name

pub nul_free-NulFree : (name : List ℕ) → nul_free name ≡ true → NulFree name
unfolding nul_free
nul_free-NulFree [] h = tt
nul_free-NulFree (c ∷ name) h =
    let (head, tail) = &&-eq-true (leb 1 c) (nul_free name) h in
    (leb→le 1 c head, nul_free-NulFree name tail)

pub fdt_begin_node-Adds :
    (name : List ℕ)
    → nul_free name ≡ true
    → Adds (λ s. fdt_begin_node s name) (begin_node name ∷ [])
fdt_begin_node-Adds name h = record {
  at = λ s before d. fdt_begin_node-Describes s before name d (nul_free-NulFree name h);
}

pub fdt_begin_node_num-Adds :
    (name : List ℕ) (n : ℕ)
    → nul_free (take 255 (name ++ (codes "@" ++ hex 16 n))) ≡ true
    → Adds
        (λ s. fdt_begin_node_num s name n)
        (begin_node (take 255 (name ++ (codes "@" ++ hex 16 n))) ∷ [])
unfolding fdt_begin_node_num
fdt_begin_node_num-Adds name n h =
    fdt_begin_node-Adds (take 255 (name ++ (codes "@" ++ hex 16 n))) h

pub fdt_end_node-Adds : Adds fdt_end_node (end_node ∷ [])
fdt_end_node-Adds = record { at = fdt_end_node-Describes }

pub fdt_prop-Adds :
    (name value : List ℕ)
    → nul_free name ≡ true
    → Adds (λ s. fdt_prop s name value) (prop name value ∷ [])
fdt_prop-Adds name value h = record {
  at = λ s before d. fdt_prop-Describes s before name value d (nul_free-NulFree name h);
}

pub fdt_prop_str-Adds :
    (name str : List ℕ)
    → nul_free name ≡ true
    → Adds (λ s. fdt_prop_str s name str) (prop name (with_nul str) ∷ [])
unfolding fdt_prop_str
fdt_prop_str-Adds name str h = fdt_prop-Adds name (with_nul str) h

pub fdt_prop_tab_str-Adds :
    (name : List ℕ) (strings : List (List ℕ))
    → nul_free name ≡ true
    → Adds (λ s. fdt_prop_tab_str s name strings) (prop name (join_strings strings) ∷ [])
unfolding fdt_prop_tab_str
fdt_prop_tab_str-Adds name strings h = fdt_prop-Adds name (join_strings strings) h

pub fdt_prop_tab_u32-Adds :
    (name tab : List ℕ)
    → nul_free name ≡ true
    → Adds (λ s. fdt_prop_tab_u32 s name tab) (prop name (be32_words tab) ∷ [])
fdt_prop_tab_u32-Adds name tab h = record {
  at = λ s before d. fdt_prop_tab_u32-Describes s before name tab d (nul_free-NulFree name h);
}

pub fdt_prop_u32-Adds :
    (name : List ℕ) (v : ℕ)
    → nul_free name ≡ true
    → Adds (λ s. fdt_prop_u32 s name v) (prop name (be32_words (v ∷ [])) ∷ [])
unfolding fdt_prop_u32
fdt_prop_u32-Adds name v h = fdt_prop_tab_u32-Adds name (v ∷ []) h

pub fdt_prop_tab_u64-Adds :
    (name : List ℕ) (v : ℕ)
    → nul_free name ≡ true
    → Adds
        (λ s. fdt_prop_tab_u64 s name v)
        (prop name (be32_words (u32 (v / 2 ^ 32) ∷ u32 v ∷ [])) ∷ [])
unfolding fdt_prop_tab_u64
fdt_prop_tab_u64-Adds name v h = fdt_prop_tab_u32-Adds name (u32 (v / 2 ^ 32) ∷ u32 v ∷ []) h

pub fdt_prop_tab_u64_2-Adds :
    (name : List ℕ) (v w : ℕ)
    → nul_free name ≡ true
    → Adds
        (λ s. fdt_prop_tab_u64_2 s name v w)
        (prop name (be32_words (u32 (v / 2 ^ 32) ∷ u32 v ∷ u32 (w / 2 ^ 32) ∷ u32 w ∷ [])) ∷ [])
unfolding fdt_prop_tab_u64_2
fdt_prop_tab_u64_2-Adds name v w h =
    fdt_prop_tab_u32-Adds name (u32 (v / 2 ^ 32) ∷ u32 v ∷ u32 (w / 2 ^ 32) ∷ u32 w ∷ []) h

pub if-Adds :
    (b : Bool) (call : FdtState → FdtState) (es : List Event)
    → Adds call es
    → Adds (λ s. if b then call s else s) (if b then es else [])
if-Adds true call es h = h
if-Adds false call es h = record {
  at = λ s before d. subst (Describes s) (sym (append-nil before)) d;
}
