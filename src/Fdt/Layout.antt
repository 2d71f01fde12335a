-- ===== src/Fdt/Layout.antt =====
-- Where `fdt_output` puts the parts of the block.
use emuriscv.Base.{
  ℕ, zero, suc, ◌+◌, ◌-◌, ◌%◌, ◌==◌, ◌≤◌, ◌≡◌, refl, arith, Bool-cases, ==_iff, inl, inr, bit_and,
  List, ◌++◌, length, some, IsWord,
}
use mathlib.Core.List.{append_assoc}
use emuriscv.Bits.{bit_and_mask}
use emuriscv.Fdt.Text.{drop}
use emuriscv.Fdt.Swap.{be32_bytes}
use emuriscv.Fdt.Output.{FdtHeader, header_bytes, align_8, layout, fdt_magic}
use emuriscv.Fdt.Format.{read_field}
use emuriscv.Fdt.Reader.{be32, read_u32-be32}

-- The loops that align `pos` end at a multiple of 8, less than 8 bytes further.
align_8_lem :
    (fuel pos : ℕ) → (8 - pos % 8) % 8 ≤ fuel → length (align_8 fuel pos) ≡ (8 - pos % 8) % 8
unfolding align_8
align_8_lem zero pos h = omega arith
align_8_lem (suc fuel) pos h = elim (Bool-cases (bit_and pos 7 == 0)) [
  | inl e ↦
      let aligned : pos % 8 ≡ 0 =
        omega (arith, bit_and_mask 3 pos, (==_iff (bit_and pos 7) 0).0 e) in
      rw e (omega arith)
  | inr e ↦
      let ragged : 1 ≤ pos % 8 = ground (arith, bit_and_mask 3 pos) in
      rw e (omega (arith, align_8_lem fuel (pos + 1) (omega arith)))
]

-- For every size of the structure and of the strings, the parts of the block follow each other
-- without overlap, the list of reserved ranges and the end of the block lie at multiples of 8, and
-- the alignment takes at most 14 bytes.
pub layout_lem :
    (dt_struct_size dt_strings_size : ℕ)
    → let h = layout dt_struct_size dt_strings_size in
      (h.off_dt_struct ≡ 40)
      × (h.off_dt_struct + dt_struct_size ≤ h.off_mem_rsvmap)
      × (h.off_mem_rsvmap + 16 ≡ h.off_dt_strings)
      × (h.off_dt_strings + dt_strings_size ≤ h.totalsize)
      × (h.off_mem_rsvmap % 8 ≡ 0)
      × (h.totalsize % 8 ≡ 0)
      × (h.totalsize ≤ 56 + dt_struct_size + dt_strings_size + 14)
unfolding layout
layout_lem dt_struct_size dt_strings_size =
    let p = 40 + dt_struct_size in
    let a = align_8_lem 7 p (omega arith) in
    let q = p + length (align_8 7 p) + 16 + dt_strings_size in
    let b = align_8_lem 7 q (omega arith) in
    (refl, omega arith, refl, omega arith, omega (arith, a), omega (arith, b), omega (arith, a, b))

pub layout_fields :
    (a b : ℕ)
    → ((layout a b).magic ≡ fdt_magic)
      × ((layout a b).off_dt_struct ≡ 40)
      × ((layout a b).size_dt_struct ≡ a)
      × ((layout a b).size_dt_strings ≡ b)
      × ((layout a b).off_dt_strings ≡ 40 + a + length (align_8 7 (40 + a)) + 16)
      × ((layout a b).totalsize
          ≡ (layout a b).off_dt_strings + b + length (align_8 7 ((layout a b).off_dt_strings + b)))
unfolding layout
layout_fields a b = (refl, refl, refl, refl, refl, refl)

pub drop_word :
    (n v : ℕ) (rest : List ℕ) → drop (suc (suc (suc (suc n)))) (be32 v ++ rest) ≡ drop n rest
drop_word n v rest = rw (be32_bytes v) refl

pub header_lem :
    (h : FdtHeader) (rest : List ℕ)
    → header_bytes h ++ rest
      ≡ be32 h.magic
        ++ (be32 h.totalsize
            ++ (be32 h.off_dt_struct
                ++ (be32 h.off_dt_strings
                    ++ (be32 h.off_mem_rsvmap
                        ++ (be32 h.version
                            ++ (be32 h.last_comp_version
                                ++ (be32 h.boot_cpuid_phys
                                    ++ (be32 h.size_dt_strings
                                        ++ (be32 h.size_dt_struct ++ rest)))))))))
unfolding header_bytes
header_lem h rest = simp append_assoc refl

pub read_field_lem :
    (pos v : ℕ) (block rest : List ℕ)
    → drop pos block ≡ be32 v ++ rest
    → IsWord v
    → read_field pos block ≡ some v
unfolding read_field
read_field_lem pos v block rest e h = rw (e, read_u32-be32 v rest h) refl
