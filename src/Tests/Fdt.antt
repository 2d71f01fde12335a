-- ===== src/Tests/Fdt.antt =====
-- The writer of the device tree on concrete input.
use emuriscv.Base.{ℕ, ◌+◌, ◌*◌, ◌%◌, ◌^◌, ◌≤◌, ◌≡◌, refl, arith, List, [], ◌∷◌, ◌++◌, some, length}
use emuriscv.Fdt.Text.{codes}
use emuriscv.Fdt.State.{
  fdt_put32, fdt_put_data, fdt_begin_node, fdt_begin_node_num, fdt_end_node, fdt_prop_tab_u32,
  fdt_prop_u32, fdt_prop_tab_u64_2, fdt_prop_str, fdt_prop_tab_str, put_string_offset, FdtState,
  fdt_init, fdt_prop, fdt_get_string_offset,
}
use emuriscv.Fdt.Output.{layout, fdt_output, align_8}
use emuriscv.Fdt.Build.{
  riscv_build_fdt, machine_tree, run_calls, root_calls, cpu_calls, memory_calls, soc_calls,
  kernel_calls, chosen_calls,
}
use emuriscv.Fdt.Format.{read_fdt}
use emuriscv.Fdt.Strings.{IsTable, Placed}
use emuriscv.Fdt.Adds.{nul_free, nul_free-NulFree}
use emuriscv.Fdt.Lookup.{fdt_get_string_offset-Placed}
use emuriscv.Fdt.Layout.{layout_lem}
use emuriscv.Fdt.Events.{machine_events}
use emuriscv.Fdt.Machine.{riscv_build_fdt-read}

-- 96 MB of RAM, no kernel, and a command line.
abbrev built : List ℕ × ℕ
built = riscv_build_fdt 32 (96 * 2 ^ 20) 0 0 (some (codes "console=hvc0"))

built_size : built.1 ≡ 1144
unfolding riscv_build_fdt fdt_output layout align_8 fdt_put32 fdt_put_data machine_tree run_calls
    root_calls cpu_calls memory_calls soc_calls kernel_calls chosen_calls fdt_init fdt_begin_node
    fdt_begin_node_num fdt_end_node fdt_prop fdt_prop_tab_u32 fdt_prop_u32 fdt_prop_tab_u64_2
    fdt_prop_str fdt_prop_tab_str put_string_offset
built_size = refl

riscv_build_fdt-read_example :
    (read_fdt (built.0) ≡ some (machine_events 32 (96 * 2 ^ 20) 0 0 (some (codes "console=hvc0"))))
    × (length (built.0) ≡ built.1)
    × ((machine_tree 32 (96 * 2 ^ 20) 0 0 (some (codes "console=hvc0"))).open_node_count ≡ 0)
riscv_build_fdt-read_example =
    riscv_build_fdt-read 32 (96 * 2 ^ 20) 0 0 (some (codes "console=hvc0"))
      (omega (arith, built_size))

layout_lem_example :
    ((layout 100 50).off_dt_struct ≡ 40)
    × ((layout 100 50).off_dt_struct + 100 ≤ (layout 100 50).off_mem_rsvmap)
    × ((layout 100 50).off_mem_rsvmap + 16 ≡ (layout 100 50).off_dt_strings)
    × ((layout 100 50).off_dt_strings + 50 ≤ (layout 100 50).totalsize)
    × ((layout 100 50).off_mem_rsvmap % 8 ≡ 0)
    × ((layout 100 50).totalsize % 8 ≡ 0)
    × ((layout 100 50).totalsize ≤ 220)
layout_lem_example = layout_lem 100 50

-- A table with two names.
abbrev two_names : FdtState
two_names = record fdt_init {
  string_table = codes "reg" ++ (0 ∷ (codes "status" ++ (0 ∷ [])));
  string_table_len = 11;
  string_table_size = 11;
}

two_names-IsTable : IsTable two_names
unfolding nul_free
two_names-IsTable = record {
  names = codes "reg" ∷ codes "status" ∷ [];
  text = refl;
  nul_free = (nul_free-NulFree (codes "reg") refl, (nul_free-NulFree (codes "status") refl, tt));
  size = refl;
  room = omega arith;
}

fdt_get_string_offset-Placed_example : Placed two_names (codes "status") (two_names, 4)
unfolding fdt_get_string_offset nul_free
fdt_get_string_offset-Placed_example =
    fdt_get_string_offset-Placed two_names (codes "status") two_names-IsTable
      (nul_free-NulFree (codes "status") refl)
