-- ===== src/Fdt/Strings.antt =====
-- The string table: a sequence of names, each with its NUL.
use emuriscv.Base.{
  ℕ, zero, suc, ◌+◌, ◌≤◌, ◌≡◌, refl, sym, ap, ◌∙◌, arith, ◌==◌, ltb, ==_iff, &&-eq-true, Bool, true,
  false, if◌then◌else◌, List, [], ◌∷◌, ◌++◌, length, Option, none, some,
}
use mathlib.Core.Path.{subst}
use mathlib.Core.List.{append_assoc, append-nil}
use emuriscv.Fdt.Text.{drop, c_string, same_text, with_nul}
use emuriscv.Fdt.State.{FdtState, find_string}

abbrev pub NulFree : List ℕ → Type 0
NulFree [] = Unit
NulFree (c ∷ name) = (1 ≤ c) × NulFree name

-- `name` lies at the offset, up to a NUL.
pub record IsName (table : List ℕ) (offset : ℕ) (name : List ℕ) : Type 0 where
  pub before : List ℕ
  pub after : List ℕ
  pub text : table ≡ before ++ (name ++ (0 ∷ after))
  pub place : length before ≡ offset
  pub nul_free : NulFree name

abbrev pub AllNulFree : List (List ℕ) → Type 0
AllNulFree [] = Unit
AllNulFree (name ∷ names) = NulFree name × AllNulFree names

-- The names one after the other.
abbrev pub join : List (List ℕ) → List ℕ
join [] = []
join (name ∷ names) = name ++ (0 ∷ join names)

pub drop-append : (xs ys : List ℕ) → drop (length xs) (xs ++ ys) ≡ ys
drop-append [] ys = refl
drop-append (x ∷ xs) ys = drop-append xs ys

pub length-append : (xs ys : List ℕ) → length (xs ++ ys) ≡ length xs + length ys
length-append [] ys = omega arith
length-append (x ∷ xs) ys = omega (arith, length-append xs ys)

pub c_string-name : (name rest : List ℕ) → NulFree name → c_string (name ++ (0 ∷ rest)) ≡ name
c_string-name [] rest h = refl
c_string-name (zero ∷ name) rest (pos, h) = absurd (omega arith)
c_string-name (suc c ∷ name) rest (pos, h) = ap (λ n. suc c ∷ n) (c_string-name name rest h)

same_text-eq : (a b : List ℕ) → same_text a b ≡ true → a ≡ b
same_text-eq [] [] h = refl
same_text-eq [] (d ∷ b) h = cc
same_text-eq (c ∷ a) [] h = cc
same_text-eq (c ∷ a) (d ∷ b) h =
    let (head, tail) = &&-eq-true (c == d) (same_text a b) h in
    cc ((==_iff c d).0 head, same_text-eq a b tail)

same_text_refl : (a : List ℕ) → same_text a a ≡ true
same_text_refl [] = refl
same_text_refl (c ∷ a) = ground (arith, same_text_refl a)

-- The reader of the table gets the name back.
pub c_string-IsName :
    (table : List ℕ) (offset : ℕ) (name : List ℕ)
    → IsName table offset name
    → c_string (drop offset table) ≡ name
c_string-IsName table offset name h =
    rw (h.text, sym h.place, drop-append h.before (name ++ (0 ∷ h.after)))
      (c_string-name name h.after h.nul_free)

-- More strings at the end leave the offsets as they are.
pub IsName-append :
    (table : List ℕ) (offset : ℕ) (name more : List ℕ)
    → IsName table offset name
    → IsName (table ++ more) offset name
IsName-append table offset name more h = record {
  before = h.before;
  after = h.after ++ more;
  text =
      ap (λ t. t ++ more) h.text
      ∙ append_assoc h.before (name ++ (0 ∷ h.after)) more
      ∙ ap (λ t. h.before ++ t) (append_assoc name (0 ∷ h.after) more);
  place = h.place;
  nul_free = h.nul_free;
}

abbrev pub Found : List ℕ → List ℕ → Option ℕ → Type 0
Found table name none = Unit
Found table name (some pos) = IsName table pos name

Found-if :
    (b c : Bool) (table name : List ℕ) (pos : ℕ) (later : Option ℕ)
    → (c ≡ true → IsName table pos name)
    → Found table name later
    → Found table name (if b then if c then some pos else later else none)
Found-if true true table name pos later h k = h refl
Found-if true false table name pos later h k = k
Found-if false c table name pos later h k = tt

-- The search gives the offset of the name, where it gives one.
pub find_string-Found :
    (fuel : ℕ) (names : List (List ℕ)) (table before : List ℕ) (pos len : ℕ) (name : List ℕ)
    → AllNulFree names
    → table ≡ before ++ join names
    → length before ≡ pos
    → len ≡ length table
    → Found table name (find_string fuel table len pos name)
unfolding find_string
find_string-Found zero names table before pos len name all text at size = tt
find_string-Found (suc fuel) [] table before pos len name all text at size =
    let over : ltb pos len ≡ false = ground (arith, size, text, append-nil before) in rw over tt
find_string-Found (suc fuel) (n ∷ names) table before pos len name (h, all) text at size =
    let here : drop pos table ≡ n ++ (0 ∷ join names) =
      rw (text, sym at) (drop-append before (n ++ (0 ∷ join names))) in
    let first : c_string (drop pos table) ≡ n = rw here (c_string-name n (join names) h) in
    let next : table ≡ (before ++ (n ++ (0 ∷ []))) ++ join names =
      text
      ∙ ap (λ t. before ++ t) (sym (append_assoc n (0 ∷ []) (join names)))
      ∙ sym (append_assoc before (n ++ (0 ∷ [])) (join names)) in
    let place : length (before ++ (n ++ (0 ∷ []))) ≡ pos + length n + 1 =
      omega (arith, length-append before (n ++ (0 ∷ [])), length-append n (0 ∷ []), at) in
    rw first (
      Found-if (ltb pos len) (same_text n name) table name pos _
        (λ e. record {
          before = before;
          after = join names;
          text = text ∙ ap (λ t. before ++ (t ++ (0 ∷ join names))) (same_text-eq n name e);
          place = at;
          nul_free = subst NulFree (same_text-eq n name e) h;
        })
        (find_string-Found fuel names table (before ++ (n ++ (0 ∷ []))) (pos + length n + 1) len
          name all next place size))

-- A table of names, with its length, in a buffer that is large enough.
pub record IsTable (s : FdtState) : Type 0 where
  pub names : List (List ℕ)
  pub text : s.string_table ≡ join names
  pub nul_free : AllNulFree names
  pub size : s.string_table_len ≡ length s.string_table
  pub room : s.string_table_len ≤ s.string_table_size

pub join-append :
    (names : List (List ℕ)) (name : List ℕ)
    → join (names ++ (name ∷ [])) ≡ join names ++ with_nul name
join-append [] name = refl
join-append (n ∷ names) name =
    ap (λ t. n ++ (0 ∷ t)) (join-append names name)
    ∙ sym (append_assoc n (0 ∷ join names) (with_nul name))

pub AllNulFree-append :
    (names : List (List ℕ)) (name : List ℕ)
    → AllNulFree names
    → NulFree name
    → AllNulFree (names ++ (name ∷ []))
AllNulFree-append [] name all h = (h, tt)
AllNulFree-append (n ∷ names) name (k, all) h = (k, AllNulFree-append names name all h)

-- What a call with a name leaves: a longer table, or the same, in which the name lies at the
-- offset that is returned; nothing else has changed.
pub record Placed (s : FdtState) (name : List ℕ) (r : FdtState × ℕ) : Type 0 where
  pub more : List ℕ
  pub longer : (r.0).string_table ≡ s.string_table ++ more
  pub table : IsTable (r.0)
  pub found : IsName ((r.0).string_table) (r.1) name
  pub same_tab : (r.0).tab ≡ s.tab
  pub same_len : (r.0).tab_len ≡ s.tab_len
  pub same_size : (r.0).tab_size ≡ s.tab_size
  pub same_count : (r.0).open_node_count ≡ s.open_node_count
