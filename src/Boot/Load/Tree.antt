-- ===== src/Boot/Load/Tree.antt =====
-- The size of the device tree that `load_bios_and_kernel` builds.
use emuriscv.Base.{ℕ, zero, suc, ◌+◌, ◌%◌, ◌^◌, ◌≤◌, ◌≡◌, arith, refl, List, [], ◌∷◌, length, some}
use emuriscv.Fdt.State.{
  fdt_put32, fdt_put_data, fdt_begin_node, fdt_begin_node_num, fdt_end_node, fdt_prop_tab_u32,
  fdt_prop_u32, fdt_prop_tab_u64_2, fdt_prop_tab_u64, fdt_prop_str, fdt_prop_tab_str,
  put_string_offset, FdtState, fdt_init, fdt_prop,
}
use emuriscv.Fdt.Output.{layout, fdt_output, align_8}
use emuriscv.Fdt.Build.{
  riscv_build_fdt, machine_tree, run_calls, root_calls, cpu_calls, memory_calls, soc_calls,
  kernel_calls, chosen_calls, begin_node, end_node, prop_str, prop_u64,
}
use mathlib.Core.Path.{fun_ext}
use emuriscv.Fdt.Text.{codes}
use emuriscv.Base.{◌<◌, lt→ltb, ap, ◌∙◌}
use emuriscv.Boot.{ram_size, ram_base_addr}
use emuriscv.Fdt.Format.{read_fdt}
use emuriscv.Fdt.Events.{machine_events}
use emuriscv.Fdt.Machine.{riscv_build_fdt-read}
use emuriscv.Boot.Load.{max_xlen, linux_cmdline, device_tree}

without_kernel :
    (start : ℕ) → (riscv_build_fdt max_xlen ram_size start 0 (some linux_cmdline)).1 ≡ 1176
unfolding riscv_build_fdt fdt_output layout align_8 fdt_put32 fdt_put_data machine_tree run_calls
    root_calls cpu_calls memory_calls soc_calls kernel_calls chosen_calls fdt_init fdt_begin_node
    fdt_begin_node_num fdt_end_node fdt_prop fdt_prop_tab_u32 fdt_prop_u32 fdt_prop_tab_u64_2
    fdt_prop_tab_u64 fdt_prop_str fdt_prop_tab_str put_string_offset
without_kernel start = refl

abbrev kernel_props : ℕ → ℕ → FdtState → FdtState
kernel_props start n =
    run_calls (
      prop_u64 "riscv,kernel-start" start ∷ prop_u64 "riscv,kernel-end" ((start + n) % 2 ^ 64) ∷ [])

kernel_calls-eq-kernel_props : (start n : ℕ) → 0 < n → kernel_calls start n ≡ kernel_props start n
unfolding kernel_calls
kernel_calls-eq-kernel_props start n h = fun_ext (λ s. rw (lt→ltb 0 n h) refl)

-- The tree with other calls for the kernel.
abbrev tree_with : (FdtState → FdtState) → FdtState
tree_with kernel =
    run_calls
      (begin_node "chosen"
        ∷ prop_str "bootargs" linux_cmdline
        ∷ kernel
        ∷ prop_str "stdout-path" (codes "/soc/uart@10000000")
        ∷ end_node
        ∷ end_node
        ∷ [])
      (run_calls soc_calls (
        run_calls (memory_calls ram_size)
          (run_calls (cpu_calls max_xlen) (run_calls root_calls fdt_init))))

tree_size : (start n : ℕ) → (fdt_output (tree_with (kernel_props start n))).1 ≡ 1256
unfolding riscv_build_fdt fdt_output layout align_8 fdt_put32 fdt_put_data machine_tree run_calls
    root_calls cpu_calls memory_calls soc_calls kernel_calls chosen_calls fdt_init fdt_begin_node
    fdt_begin_node_num fdt_end_node fdt_prop fdt_prop_tab_u32 fdt_prop_u32 fdt_prop_tab_u64_2
    fdt_prop_tab_u64 fdt_prop_str fdt_prop_tab_str put_string_offset
tree_size start n = refl

with_kernel :
    (start n : ℕ)
    → 0 < n
    → (riscv_build_fdt max_xlen ram_size start n (some linux_cmdline)).1 ≡ 1256
unfolding riscv_build_fdt machine_tree chosen_calls
with_kernel start n h =
    ap (λ k. (fdt_output (tree_with k)).1) (kernel_calls-eq-kernel_props start n h)
    ∙ tree_size start n

-- The block is small, whatever the kernel is.
tree_bounds :
    (start n : ℕ)
    → (1176 ≤ (riscv_build_fdt max_xlen ram_size start n (some linux_cmdline)).1)
      × ((riscv_build_fdt max_xlen ram_size start n (some linux_cmdline)).1 ≤ 1256)
tree_bounds start zero = omega (arith, without_kernel start)
tree_bounds start (suc n) = omega (arith, with_kernel start (suc n) (omega arith))

-- A reader gets the description of the machine from the block, which has from 1176 to 1256 bytes.
pub device_tree_lem :
    (base : ℕ) (kernel_buf : List ℕ)
    → (read_fdt (device_tree base kernel_buf)
        ≡ some (
            machine_events max_xlen ram_size
              ((ram_base_addr + base) % 2 ^ 64)
              (length kernel_buf)
              (some linux_cmdline)))
      × (1176 ≤ length (device_tree base kernel_buf))
      × (length (device_tree base kernel_buf) ≤ 1256)
unfolding device_tree
device_tree_lem base kernel_buf =
    let start = (ram_base_addr + base) % 2 ^ 64 in
    let bound = tree_bounds start (length kernel_buf) in
    let read =
      riscv_build_fdt-read max_xlen ram_size start (length kernel_buf) (some linux_cmdline)
        (omega (arith, bound.1)) in
    (read.0, omega (arith, read.1, bound.0), omega (arith, read.1, bound.1))
