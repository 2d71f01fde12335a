-- ===== src/Fdt/Machine.antt =====
-- `riscv_build_fdt` gives the device tree of the machine.
use emuriscv.Base.{
  ℕ, ◌+◌, ◌%◌, ◌^◌, ◌≡◌, refl, ◌∙◌, length, Bool-cases, inl, inr, ltb, leb, if◌then◌else◌, IsWord,
  List, [], ◌∷◌, ◌++◌, Option, none, some,
}
use mathlib.Core.Path.{subst}
use mathlib.Core.List.{append_assoc}
use emuriscv.Boot.{ram_base_addr, clint_base_addr, clint_size, uart_base_addr, uart_size}
use emuriscv.Fdt.Text.{codes, with_nul}
use emuriscv.Fdt.State.{fdt_init, join_strings}
use emuriscv.Fdt.Build.{
  run_calls, rtc_freq, intc_phandle, root_calls, cpu_calls, memory_calls, soc_calls, kernel_calls,
  chosen_calls, machine_tree, riscv_build_fdt, prop_u64,
}
use emuriscv.Fdt.Format.{Event, end_node, prop, read_fdt}
use emuriscv.Fdt.Describes.{Describes, open_nodes, open_nodes-append, fdt_init-Describes}
use emuriscv.Fdt.Block.{fdt_output-read}
use emuriscv.Fdt.Adds.{
  Adds, nul_free, nil-Adds, cons-Adds, fdt_begin_node-Adds, fdt_begin_node_num-Adds,
  fdt_end_node-Adds, fdt_prop-Adds, fdt_prop_str-Adds, fdt_prop_tab_str-Adds, fdt_prop_tab_u32-Adds,
  fdt_prop_u32-Adds, fdt_prop_tab_u64-Adds, fdt_prop_tab_u64_2-Adds, if-Adds,
}
use emuriscv.Fdt.Events.{
  root_events, cpu_events, memory_events, soc_events, kernel_events, chosen_events, machine_events,
}

root_calls-Adds : Adds (run_calls root_calls) root_events
unfolding root_calls nul_free join_strings
root_calls-Adds = cons-Adds _ (fdt_begin_node-Adds (codes "") refl) (
    cons-Adds _ (fdt_prop_u32-Adds (codes "#address-cells") 2 refl) (
      cons-Adds _ (fdt_prop_u32-Adds (codes "#size-cells") 2 refl) (
        cons-Adds _ (fdt_prop_str-Adds (codes "compatible") (codes "ucbbar,riscvemu-bar") refl) (
          cons-Adds _ (fdt_prop_str-Adds (codes "model") (codes "emuriscv,emuriscv") refl)
            nil-Adds))))

cpu_calls-Adds : (max_xlen : ℕ) → Adds (run_calls (cpu_calls max_xlen)) (cpu_events max_xlen)
unfolding cpu_calls nul_free join_strings
cpu_calls-Adds max_xlen = cons-Adds _ (fdt_begin_node-Adds (codes "cpus") refl) (
    cons-Adds _ (fdt_prop_u32-Adds (codes "#address-cells") 1 refl) (
      cons-Adds _ (fdt_prop_u32-Adds (codes "#size-cells") 0 refl) (
        cons-Adds _ (fdt_prop_u32-Adds (codes "timebase-frequency") rtc_freq refl) (
          cons-Adds _ (fdt_begin_node_num-Adds (codes "cpu") 0 refl) (
            cons-Adds _ (fdt_prop_str-Adds (codes "device_type") (codes "cpu") refl) (
              cons-Adds _ (fdt_prop_u32-Adds (codes "reg") 0 refl) (
                cons-Adds _ (fdt_prop_str-Adds (codes "status") (codes "okay") refl) (
                  cons-Adds _ (fdt_prop_str-Adds (codes "compatible") (codes "riscv") refl) (
                    cons-Adds _ (fdt_prop_str-Adds (codes "riscv,isa") (codes "rv32i") refl) (
                      cons-Adds _
                        (fdt_prop_str-Adds (codes "mmu-type")
                          (if leb max_xlen 32 then codes "riscv,sv32" else codes "riscv,sv48") refl)
                        (cons-Adds _ (fdt_prop_u32-Adds (codes "clock-frequency") rtc_freq refl) (
                          cons-Adds _ (fdt_begin_node-Adds (codes "interrupt-controller") refl) (
                            cons-Adds _ (fdt_prop_u32-Adds (codes "#interrupt-cells") 1 refl) (
                              cons-Adds _ (fdt_prop-Adds (codes "interrupt-controller") [] refl) (
                                cons-Adds _
                                  (fdt_prop_str-Adds (codes "compatible") (codes "riscv,cpu-intc")
                                    refl)
                                  (cons-Adds _
                                    (fdt_prop_u32-Adds (codes "phandle") intc_phandle refl)
                                    (cons-Adds _ (fdt_end_node-Adds) (
                                      cons-Adds _ (fdt_end_node-Adds)
                                        (cons-Adds _ (fdt_end_node-Adds) nil-Adds)))))))))))))))))))

memory_calls-Adds :
    (ram_size : ℕ) → Adds (run_calls (memory_calls ram_size)) (memory_events ram_size)
unfolding memory_calls nul_free join_strings
memory_calls-Adds ram_size =
    cons-Adds _ (fdt_begin_node_num-Adds (codes "memory") ram_base_addr refl) (
      cons-Adds _ (fdt_prop_str-Adds (codes "device_type") (codes "memory") refl) (
        cons-Adds _ (fdt_prop_tab_u32-Adds (codes "reg") _ refl)
          (cons-Adds _ (fdt_end_node-Adds) nil-Adds)))

soc_calls-Adds : Adds (run_calls soc_calls) soc_events
unfolding soc_calls nul_free join_strings
soc_calls-Adds = cons-Adds _ (fdt_begin_node-Adds (codes "soc") refl) (
    cons-Adds _ (fdt_prop_u32-Adds (codes "#address-cells") 2 refl) (
      cons-Adds _ (fdt_prop_u32-Adds (codes "#size-cells") 2 refl) (
        cons-Adds _ (fdt_prop_tab_str-Adds (codes "compatible") _ refl) (
          cons-Adds _ (fdt_prop-Adds (codes "ranges") [] refl) (
            cons-Adds _ (fdt_begin_node_num-Adds (codes "clint") clint_base_addr refl) (
              cons-Adds _ (fdt_prop_str-Adds (codes "compatible") (codes "riscv,clint0") refl) (
                cons-Adds _ (fdt_prop_tab_u32-Adds (codes "interrupts-extended") _ refl) (
                  cons-Adds _
                    (fdt_prop_tab_u64_2-Adds (codes "reg") clint_base_addr clint_size refl)
                    (cons-Adds _ (fdt_end_node-Adds) (
                      cons-Adds _ (fdt_begin_node_num-Adds (codes "uart") uart_base_addr refl) (
                        cons-Adds _
                          (fdt_prop_str-Adds (codes "compatible") (codes "sifive,uart0") refl)
                          (cons-Adds _
                            (fdt_prop_tab_u64_2-Adds (codes "reg") uart_base_addr uart_size refl)
                            (cons-Adds _ (fdt_end_node-Adds)
                              (cons-Adds _ (fdt_end_node-Adds) nil-Adds))))))))))))))

kernel_calls-Adds :
    (kernel_start kernel_size : ℕ)
    → Adds (kernel_calls kernel_start kernel_size) (kernel_events kernel_start kernel_size)
unfolding kernel_calls nul_free
kernel_calls-Adds kernel_start kernel_size =
    let end = (kernel_start + kernel_size) % 2 ^ 64 in
    if-Adds (ltb 0 kernel_size) _ _ (
      cons-Adds (prop_u64 "riscv,kernel-end" end ∷ [])
        (fdt_prop_tab_u64-Adds (codes "riscv,kernel-start") kernel_start refl)
        (cons-Adds [] (fdt_prop_tab_u64-Adds (codes "riscv,kernel-end") end refl) nil-Adds))

text-Adds :
    (kernel_start kernel_size : ℕ) (text : List ℕ)
    → Adds
        (run_calls (chosen_calls kernel_start kernel_size (some text)))
        (chosen_events kernel_start kernel_size (some text))
unfolding chosen_calls nul_free
text-Adds kernel_start kernel_size text = cons-Adds _ (fdt_begin_node-Adds (codes "chosen") refl) (
    cons-Adds _ (fdt_prop_str-Adds (codes "bootargs") text refl) (
      cons-Adds _ (kernel_calls-Adds kernel_start kernel_size) (
        cons-Adds _ (fdt_prop_str-Adds (codes "stdout-path") (codes "/soc/uart@10000000") refl)
          (cons-Adds _ fdt_end_node-Adds (cons-Adds _ fdt_end_node-Adds nil-Adds)))))

chosen_calls-Adds :
    (kernel_start kernel_size : ℕ) (cmd_line : Option (List ℕ))
    → Adds
        (run_calls (chosen_calls kernel_start kernel_size cmd_line))
        (chosen_events kernel_start kernel_size cmd_line)
unfolding chosen_calls nul_free
chosen_calls-Adds kernel_start kernel_size none = text-Adds kernel_start kernel_size []
chosen_calls-Adds kernel_start kernel_size (some text) = text-Adds kernel_start kernel_size text

-- The state that `fdt_output` is called with describes the machine, and no node is left open.
machine_tree-Describes :
    (max_xlen ram_size kernel_start kernel_size : ℕ) (cmd_line : Option (List ℕ))
    → Describes
        (machine_tree max_xlen ram_size kernel_start kernel_size cmd_line)
        (machine_events max_xlen ram_size kernel_start kernel_size cmd_line)
unfolding machine_tree
machine_tree-Describes max_xlen ram_size kernel_start kernel_size cmd_line =
    let root = root_calls-Adds.at fdt_init [] fdt_init-Describes in
    let cpu = (cpu_calls-Adds max_xlen).at _ _ root in
    let memory = (memory_calls-Adds ram_size).at _ _ cpu in
    let soc = soc_calls-Adds.at _ _ memory in
    let chosen = (chosen_calls-Adds kernel_start kernel_size cmd_line).at _ _ soc in
    subst (Describes _)
      (shape root_events (cpu_events max_xlen) (memory_events ram_size) soc_events
        (chosen_events kernel_start kernel_size cmd_line))
      chosen
  where
    shape : (a b c d e : List Event) → a ++ b ++ c ++ d ++ e ≡ a ++ (b ++ (c ++ (d ++ e)))
    shape a b c d e = simp append_assoc refl

kernel_closed :
    (n kernel_start kernel_size : ℕ) → open_nodes n (kernel_events kernel_start kernel_size) ≡ n
kernel_closed n kernel_start kernel_size = elim (Bool-cases (ltb 0 kernel_size)) [
  | inl e ↦ rw e refl
  | inr e ↦ rw e refl
]

-- For every command line, kernel and memory size, the writer's state before `fdt_output` has no
-- node open, and a reader of the block that `riscv_build_fdt` leaves gets the nodes and properties
-- of the machine in order, the nodes of the kernel only where its size is not 0, if the block comes
-- out shorter than 2 ^ 32 bytes. The size that is returned is the number of bytes.
pub riscv_build_fdt-read :
    (max_xlen ram_size kernel_start kernel_size : ℕ) (cmd_line : Option (List ℕ))
    → IsWord ((riscv_build_fdt max_xlen ram_size kernel_start kernel_size cmd_line).1)
    → let built = riscv_build_fdt max_xlen ram_size kernel_start kernel_size cmd_line in
      (read_fdt (built.0)
        ≡ some (machine_events max_xlen ram_size kernel_start kernel_size cmd_line))
      × (length (built.0) ≡ built.1)
      × ((machine_tree max_xlen ram_size kernel_start kernel_size cmd_line).open_node_count ≡ 0)
unfolding riscv_build_fdt
riscv_build_fdt-read max_xlen ram_size kernel_start kernel_size cmd_line fits =
    let d = machine_tree-Describes max_xlen ram_size kernel_start kernel_size cmd_line in
    let (events, size) = fdt_output-read _ _ d fits in
    let closed : open_nodes 0 (machine_events max_xlen ram_size kernel_start kernel_size cmd_line)
        ≡ 0 =
      open_nodes-append 2 (kernel_events kernel_start kernel_size) (
        prop (codes "stdout-path") (with_nul (codes "/soc/uart@10000000"))
        ∷ end_node
        ∷ end_node
        ∷ [])
      ∙ rw (kernel_closed 2 kernel_start kernel_size) refl in
    (events, size, d.count ∙ closed)
