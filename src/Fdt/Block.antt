-- ===== src/Fdt/Block.antt =====
-- The block that `fdt_output` writes, read back.
use emuriscv.Base.{
  ℕ, suc, ◌+◌, ◌*◌, ◌≤◌, ◌≡◌, refl, sym, ap, ◌∙◌, arith, List, ◌++◌, length, some, IsWord,
}
use mathlib.Core.Path.{subst}
use mathlib.Core.List.{append_assoc}
use emuriscv.Fdt.Text.{drop, take, zeros}
use emuriscv.Fdt.State.{FdtState, fdt_put32}
use emuriscv.Fdt.Output.{FdtHeader, header_bytes, align_8, layout, fdt_output, fdt_magic}
use emuriscv.Fdt.Format.{Event, read_field, read_fdt, read_struct}
use emuriscv.Fdt.Strings.{drop-append, length-append}
use emuriscv.Fdt.Reader.{be32, Spells, Spells-longer, length-zeros, take-append}
use emuriscv.Fdt.RoundTrip.{length-be32, read_struct-Spells, Spells-length}
use emuriscv.Fdt.Emits.{IsBuffer, fdt_put32-Emits}
use emuriscv.Fdt.Describes.{Describes}
use emuriscv.Fdt.Layout.{header_lem, read_field_lem, drop_word, layout_fields}

length-header : (h : FdtHeader) → length (header_bytes h) ≡ 40
unfolding header_bytes
length-header h = omega (
  arith,
  length-append (be32 h.magic) _,
  length-append (be32 h.totalsize) _,
  length-append (be32 h.off_dt_struct) _,
  length-append (be32 h.off_dt_strings) _,
  length-append (be32 h.off_mem_rsvmap) _,
  length-append (be32 h.version) _,
  length-append (be32 h.last_comp_version) _,
  length-append (be32 h.boot_cpuid_phys) _,
  length-append (be32 h.size_dt_strings) (be32 h.size_dt_struct),
  length-be32 h.magic,
  length-be32 h.totalsize,
  length-be32 h.off_dt_struct,
  length-be32 h.off_dt_strings,
  length-be32 h.off_mem_rsvmap,
  length-be32 h.version,
  length-be32 h.last_comp_version,
  length-be32 h.boot_cpuid_phys,
  length-be32 h.size_dt_strings,
  length-be32 h.size_dt_struct,
)

module _ (h : FdtHeader) (rest : List ℕ) where
  magic_field : IsWord h.magic → read_field 0 (header_bytes h ++ rest) ≡ some h.magic
  magic_field fits = read_field_lem 0 h.magic _ _ (header_lem h rest) fits

  struct_field :
      IsWord h.off_dt_struct → read_field 8 (header_bytes h ++ rest) ≡ some h.off_dt_struct
  struct_field fits =
      read_field_lem 8 h.off_dt_struct _ _
        (ap (drop 8) (header_lem h rest) ∙ drop_word 4 h.magic _ ∙ drop_word 0 h.totalsize _) fits

  strings_field :
      IsWord h.off_dt_strings → read_field 12 (header_bytes h ++ rest) ≡ some h.off_dt_strings
  strings_field fits =
      read_field_lem 12 h.off_dt_strings _ _
        (ap (drop 12) (header_lem h rest)
          ∙ drop_word 8 h.magic _
          ∙ drop_word 4 h.totalsize _
          ∙ drop_word 0 h.off_dt_struct _)
        fits

  size_field :
      IsWord h.size_dt_strings → read_field 32 (header_bytes h ++ rest) ≡ some h.size_dt_strings
  size_field fits =
      read_field_lem 32 h.size_dt_strings _ _
        (ap (drop 32) (header_lem h rest)
          ∙ drop_word 28 h.magic _
          ∙ drop_word 24 h.totalsize _
          ∙ drop_word 20 h.off_dt_struct _
          ∙ drop_word 16 h.off_dt_strings _
          ∙ drop_word 12 h.off_mem_rsvmap _
          ∙ drop_word 8 h.version _
          ∙ drop_word 4 h.last_comp_version _
          ∙ drop_word 0 h.boot_cpuid_phys _)
        fits

read_fdt_lem :
    (block table : List ℕ) (off_struct off_strings size : ℕ) (es : List Event)
    → read_field 0 block ≡ some fdt_magic
    → read_field 8 block ≡ some off_struct
    → read_field 12 block ≡ some off_strings
    → read_field 32 block ≡ some size
    → take size (drop off_strings block) ≡ table
    → read_struct (length block) table (drop off_struct block) ≡ some es
    → read_fdt block ≡ some es
unfolding read_fdt
read_fdt_lem block table off_struct off_strings size es h0 h8 h12 h32 ht hs =
    rw (h0, h8, h12, h32, read_fdt, ht) hs

-- The parts after the header.
abbrev body : List ℕ → List ℕ → List ℕ → List ℕ → List ℕ
body tab pad strings last = tab ++ (pad ++ (zeros 16 ++ (strings ++ last)))

length-body :
    (tab pad strings last : List ℕ)
    → length (body tab pad strings last)
      ≡ length tab + length pad + 16 + length strings + length last
length-body tab pad strings last = omega (
  arith,
  length-append tab (pad ++ (zeros 16 ++ (strings ++ last))),
  length-append pad (zeros 16 ++ (strings ++ last)),
  length-append (zeros 16) (strings ++ last),
  length-append strings last,
  length-zeros 16,
)

drop_at : (n : ℕ) (xs ys : List ℕ) → length xs ≡ n → drop n (xs ++ ys) ≡ ys
drop_at n xs ys e = rw (sym e) (drop-append xs ys)

take_all : (n : ℕ) (xs ys : List ℕ) → n ≡ length xs → take n (xs ++ ys) ≡ xs
take_all n xs ys e = rw e (take-append xs ys)

block_read :
    (h : FdtHeader) (bytes pad strings last : List ℕ) (es : List Event)
    → Spells strings es bytes
    → h.magic ≡ fdt_magic
    → h.off_dt_struct ≡ 40
    → h.off_dt_strings ≡ 40 + length (bytes ++ be32 9) + length pad + 16
    → h.size_dt_strings ≡ length strings
    → IsWord (h.off_dt_strings + length strings)
    → read_fdt (header_bytes h ++ body (bytes ++ be32 9) pad strings last) ≡ some es
block_read h bytes pad strings last es spelled m st off size fits =
    let tab = bytes ++ be32 9 in
    let rest = body tab pad strings last in
    let longer = length-append bytes (be32 9) in
    let n = 39 + length rest in
    let total : length (header_bytes h ++ rest) ≡ suc n =
      omega (arith, length-append (header_bytes h) rest, length-header h) in
    let before = header_bytes h ++ (tab ++ (pad ++ zeros 16)) in
    let split : header_bytes h ++ rest ≡ before ++ (strings ++ last) =
      sym (simp append_assoc refl) in
    let place : length before ≡ h.off_dt_strings = omega (
      arith,
      off,
      length-append (header_bytes h) (tab ++ (pad ++ zeros 16)),
      length-header h,
      length-append tab (pad ++ zeros 16),
      length-append pad (zeros 16),
      length-zeros 16,
    ) in
    let table : take h.size_dt_strings (drop h.off_dt_strings (header_bytes h ++ rest)) ≡ strings =
      ap (λ b. take h.size_dt_strings (drop h.off_dt_strings b)) split
      ∙ ap (take h.size_dt_strings) (drop_at h.off_dt_strings before (strings ++ last) place)
      ∙ take_all h.size_dt_strings strings last size in
    let struct : drop h.off_dt_struct (header_bytes h ++ rest)
        ≡ bytes ++ (be32 9 ++ (pad ++ (zeros 16 ++ (strings ++ last)))) =
      drop_at h.off_dt_struct (header_bytes h) rest (length-header h ∙ sym st)
      ∙ (append_assoc bytes (be32 9) (pad ++ (zeros 16 ++ (strings ++ last)))) in
    let enough : length es ≤ n =
      omega (arith, Spells-length spelled, length-body tab pad strings last, longer) in
    read_fdt_lem (header_bytes h ++ rest) strings h.off_dt_struct h.off_dt_strings h.size_dt_strings
      es (magic_field h rest (omega arith) ∙ ap some m) (struct_field h rest (omega arith))
      (strings_field h rest (omega arith)) (size_field h rest (omega arith)) table
      (rw (struct, total)
        (read_struct-Spells n (pad ++ (zeros 16 ++ (strings ++ last))) spelled (omega arith)
          (omega (arith, longer)) enough))

written_read :
    (h : FdtHeader) (t : FdtState) (bytes : List ℕ) (es : List Event)
    → (h.magic ≡ fdt_magic)
      × (h.off_dt_struct ≡ 40)
      × (h.size_dt_struct ≡ t.tab_len * 4)
      × (h.size_dt_strings ≡ t.string_table_len)
      × (h.off_dt_strings ≡ 40 + t.tab_len * 4 + length (align_8 7 (40 + t.tab_len * 4)) + 16)
      × (h.totalsize
          ≡ h.off_dt_strings
            + t.string_table_len
            + length (align_8 7 (h.off_dt_strings + t.string_table_len)))
    → IsBuffer t
    → t.tab ≡ bytes ++ be32 9
    → Spells t.string_table es bytes
    → IsWord h.totalsize
    → let block =
        header_bytes h
        ++ body t.tab
            (align_8 7 (h.off_dt_struct + h.size_dt_struct))
            t.string_table
            (align_8 7 (h.off_dt_strings + h.size_dt_strings)) in
      (read_fdt block ≡ some es) × (length block ≡ h.totalsize)
written_read h t bytes es (m, st, ss, zs, off, total) b tab spelled fits =
    let pad = align_8 7 (h.off_dt_struct + h.size_dt_struct) in
    let last = align_8 7 (h.off_dt_strings + h.size_dt_strings) in
    let pad_same : length pad ≡ length (align_8 7 (40 + t.tab_len * 4)) = rw (st, ss) refl in
    let last_same : length last ≡ length (align_8 7 (h.off_dt_strings + t.string_table_len)) =
      rw zs refl in
    let words : length (bytes ++ be32 9) ≡ t.tab_len * 4 = sym (ap length tab) ∙ b.full in
    (
      rw tab (
          block_read h bytes pad t.string_table last es spelled m st
            (omega (arith, words, pad_same, off)) (zs ∙ b.table.size)
            (omega (arith, total, b.table.size))),
      omega (
        arith,
        length-append (header_bytes h) (body t.tab pad t.string_table last),
        length-header h,
        length-body t.tab pad t.string_table last,
        b.full,
        b.table.size,
        pad_same,
        last_same,
        off,
        total,
      ),
    )

-- Where the state of the writer describes some events and the block comes out shorter than 2 ^ 32
-- bytes, a reader of the block that `fdt_output` leaves gets those events, and the size that is
-- returned is the number of bytes.
pub fdt_output-read :
    (s : FdtState) (es : List Event)
    → Describes s es
    → IsWord ((fdt_output s).1)
    → (read_fdt ((fdt_output s).0) ≡ some es) × (length ((fdt_output s).0) ≡ (fdt_output s).1)
unfolding fdt_output
fdt_output-read s es d fits =
    let t = fdt_put32 s 9 in
    let e = fdt_put32-Emits s 9 d.buffer in
    let spelled =
      subst (λ table. Spells table es s.tab) (sym e.longer) (Spells-longer e.more d.spelled) in
    written_read (layout (t.tab_len * 4) t.string_table_len) t s.tab es
      (layout_fields (t.tab_len * 4) t.string_table_len) e.buffer e.appended spelled fits
