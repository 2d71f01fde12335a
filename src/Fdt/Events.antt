-- ===== src/Fdt/Events.antt =====
-- The device tree that `riscv_build_fdt` is meant to give: its nodes and properties in order.
use emuriscv.Base.{
  ℕ, ◌+◌, ◌/◌, ◌%◌, ◌^◌, ltb, leb, if◌then◌else◌, u32, List, [], ◌∷◌, ◌++◌, Option, none, some,
}
use emuriscv.Boot.{ram_base_addr, clint_base_addr, clint_size, uart_base_addr, uart_size}
use emuriscv.Fdt.Text.{codes, with_nul}
use emuriscv.Fdt.Build.{rtc_freq, intc_phandle}
use emuriscv.Fdt.Emits.{be32_words}
use emuriscv.Fdt.Format.{Event, begin_node, end_node, prop}

abbrev pub root_events : List Event
root_events =
    begin_node (codes "")
    ∷ prop (codes "#address-cells") (be32_words (2 ∷ []))
    ∷ prop (codes "#size-cells") (be32_words (2 ∷ []))
    ∷ prop (codes "compatible") (with_nul (codes "ucbbar,riscvemu-bar"))
    ∷ prop (codes "model") (with_nul (codes "emuriscv,emuriscv"))
    ∷ []

abbrev pub cpu_events : ℕ → List Event
cpu_events max_xlen =
    begin_node (codes "cpus")
    ∷ prop (codes "#address-cells") (be32_words (1 ∷ []))
    ∷ prop (codes "#size-cells") (be32_words (0 ∷ []))
    ∷ prop (codes "timebase-frequency") (be32_words (rtc_freq ∷ []))
    ∷ begin_node (codes "cpu@0")
    ∷ prop (codes "device_type") (with_nul (codes "cpu"))
    ∷ prop (codes "reg") (be32_words (0 ∷ []))
    ∷ prop (codes "status") (with_nul (codes "okay"))
    ∷ prop (codes "compatible") (with_nul (codes "riscv"))
    ∷ prop (codes "riscv,isa") (with_nul (codes "rv32i"))
    ∷ prop (codes "mmu-type")
        (with_nul (if leb max_xlen 32 then codes "riscv,sv32" else codes "riscv,sv48"))
    ∷ prop (codes "clock-frequency") (be32_words (rtc_freq ∷ []))
    ∷ begin_node (codes "interrupt-controller")
    ∷ prop (codes "#interrupt-cells") (be32_words (1 ∷ []))
    ∷ prop (codes "interrupt-controller") []
    ∷ prop (codes "compatible") (with_nul (codes "riscv,cpu-intc"))
    ∷ prop (codes "phandle") (be32_words (intc_phandle ∷ []))
    ∷ end_node
    ∷ end_node
    ∷ end_node
    ∷ []

abbrev pub memory_events : ℕ → List Event
memory_events ram_size =
    begin_node (codes "memory@80000000")
    ∷ prop (codes "device_type") (with_nul (codes "memory"))
    ∷ prop (codes "reg")
        (be32_words (0 ∷ ram_base_addr ∷ u32 (ram_size / 2 ^ 32) ∷ u32 ram_size ∷ []))
    ∷ end_node
    ∷ []

abbrev pub soc_events : List Event
soc_events =
    begin_node (codes "soc")
    ∷ prop (codes "#address-cells") (be32_words (2 ∷ []))
    ∷ prop (codes "#size-cells") (be32_words (2 ∷ []))
    ∷ prop (codes "compatible")
        (with_nul (codes "ucbbar,riscvemu-bar-soc") ++ with_nul (codes "simple-bus"))
    ∷ prop (codes "ranges") []
    ∷ begin_node (codes "clint@2000000")
    ∷ prop (codes "compatible") (with_nul (codes "riscv,clint0"))
    ∷ prop (codes "interrupts-extended") (be32_words (intc_phandle ∷ 3 ∷ intc_phandle ∷ 7 ∷ []))
    ∷ prop (codes "reg") (be32_words (0 ∷ clint_base_addr ∷ 0 ∷ clint_size ∷ []))
    ∷ end_node
    ∷ begin_node (codes "uart@10000000")
    ∷ prop (codes "compatible") (with_nul (codes "sifive,uart0"))
    ∷ prop (codes "reg") (be32_words (0 ∷ uart_base_addr ∷ 0 ∷ uart_size ∷ []))
    ∷ end_node
    ∷ end_node
    ∷ []

-- The addresses of the kernel, as two words each.
abbrev pub kernel_events : ℕ → ℕ → List Event
kernel_events kernel_start kernel_size =
    let end = (kernel_start + kernel_size) % 2 ^ 64 in
    if ltb 0 kernel_size
    then prop (codes "riscv,kernel-start")
        (be32_words (u32 (kernel_start / 2 ^ 32) ∷ u32 kernel_start ∷ []))
      ∷ prop (codes "riscv,kernel-end") (be32_words (u32 (end / 2 ^ 32) ∷ u32 end ∷ []))
      ∷ []
    else []

abbrev pub bootargs : Option (List ℕ) → List ℕ
bootargs none = []
bootargs (some text) = text

abbrev pub chosen_events : ℕ → ℕ → Option (List ℕ) → List Event
chosen_events kernel_start kernel_size cmd_line =
    begin_node (codes "chosen")
    ∷ prop (codes "bootargs") (with_nul (bootargs cmd_line))
    ∷ (kernel_events kernel_start kernel_size
        ++ (prop (codes "stdout-path") (with_nul (codes "/soc/uart@10000000"))
            ∷ end_node
            ∷ end_node
            ∷ []))

abbrev pub machine_events : ℕ → ℕ → ℕ → ℕ → Option (List ℕ) → List Event
machine_events max_xlen ram_size kernel_start kernel_size cmd_line =
    root_events
    ++ (cpu_events max_xlen
        ++ (memory_events ram_size
            ++ (soc_events ++ chosen_events kernel_start kernel_size cmd_line)))
