-- ===== src/Fdt/Output.antt =====
-- `fdt_output`: the header, the structure block, the empty list of reserved ranges and the strings,
-- in one block of bytes.
use emuriscv.Base.{
  ℕ, zero, suc, ◌+◌, ◌*◌, ◌==◌, if◌then◌else◌, bit_and, List, [], ◌∷◌, ◌++◌, length,
}
use emuriscv.Fdt.Text.{zeros}
use emuriscv.Fdt.State.{FdtState, word_bytes, cpu_to_be32, fdt_put32, fdt_end_tag}

abbrev pub fdt_magic : ℕ
fdt_magic = 0xd00dfeed

abbrev pub fdt_version : ℕ
fdt_version = 17

-- `sizeof(struct fdt_header)` and `sizeof(struct fdt_reserve_entry)`.
abbrev pub header_size : ℕ
header_size = 40

abbrev pub reserve_entry_size : ℕ
reserve_entry_size = 16

pub record FdtHeader : Type 0 where
  pub magic : ℕ
  pub totalsize : ℕ
  pub off_dt_struct : ℕ
  pub off_dt_strings : ℕ
  pub off_mem_rsvmap : ℕ
  pub version : ℕ
  pub last_comp_version : ℕ
  pub boot_cpuid_phys : ℕ
  pub size_dt_strings : ℕ
  pub size_dt_struct : ℕ

-- The stores `h->field = cpu_to_be32(...)`, in the order of the fields in memory.
unfoldable pub header_bytes : FdtHeader → List ℕ
header_bytes h =
    word_bytes (cpu_to_be32 h.magic)
    ++ (word_bytes (cpu_to_be32 h.totalsize)
        ++ (word_bytes (cpu_to_be32 h.off_dt_struct)
            ++ (word_bytes (cpu_to_be32 h.off_dt_strings)
                ++ (word_bytes (cpu_to_be32 h.off_mem_rsvmap)
                    ++ (word_bytes (cpu_to_be32 h.version)
                        ++ (word_bytes (cpu_to_be32 h.last_comp_version)
                            ++ (word_bytes (cpu_to_be32 h.boot_cpuid_phys)
                                ++ (word_bytes (cpu_to_be32 h.size_dt_strings)
                                    ++ word_bytes (cpu_to_be32 h.size_dt_struct)))))))))

-- The zero bytes that `while ((pos & 7) != 0) dst[pos++] = 0` stores. The first argument is the
-- fuel: after 7 rounds at most `pos` is a multiple of 8.
unfoldable pub align_8 : ℕ → ℕ → List ℕ
align_8 zero pos = []
align_8 (suc fuel) pos =
    let more = align_8 fuel (pos + 1) in if bit_and pos 7 == 0 then [] else 0 ∷ more

-- Where each part of the block lies, from the sizes of the two that vary.
unfoldable pub layout : ℕ → ℕ → FdtHeader
layout dt_struct_size dt_strings_size =
    let pos = header_size + dt_struct_size in
    let off_mem_rsvmap = pos + length (align_8 7 pos) in
    let off_dt_strings = off_mem_rsvmap + reserve_entry_size in
    let end = off_dt_strings + dt_strings_size in
    record {
      magic = fdt_magic;
      totalsize = end + length (align_8 7 end);
      off_dt_struct = header_size;
      off_dt_strings = off_dt_strings;
      off_mem_rsvmap = off_mem_rsvmap;
      version = fdt_version;
      last_comp_version = 16;
      boot_cpuid_phys = 0;
      size_dt_strings = dt_strings_size;
      size_dt_struct = dt_struct_size;
    }

-- The bytes at `dst`, and the size that is returned.
unfoldable pub fdt_output : FdtState → List ℕ × ℕ
fdt_output s =
    let s' = fdt_put32 s fdt_end_tag in
    let h = layout (s'.tab_len * 4) s'.string_table_len in
    (
      header_bytes h
          ++ (s'.tab
              ++ (align_8 7 (h.off_dt_struct + h.size_dt_struct)
                  ++ (zeros reserve_entry_size
                      ++ (s'.string_table ++ align_8 7 (h.off_dt_strings + h.size_dt_strings))))),
      h.totalsize,
    )
