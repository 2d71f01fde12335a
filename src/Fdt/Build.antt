-- ===== src/Fdt/Build.antt =====
-- `riscv_build_fdt`: the description of the machine. The parts under `#if 0` are left out, and so is
-- the copy of the block that is written to a file.
use Prim.Native.String.{String}
use emuriscv.Base.{
  length, ℕ, ◌+◌, ◌^◌, ◌/◌, ◌%◌, ltb, leb, if◌then◌else◌, u32, List, [], ◌∷◌, Option, none, some,
}
use emuriscv.Boot.{ram_base_addr, clint_base_addr, clint_size, uart_base_addr, uart_size}
use emuriscv.Fdt.Text.{codes}
use emuriscv.Fdt.State.{
  FdtState, fdt_init, fdt_begin_node, fdt_begin_node_num, fdt_end_node, fdt_prop, fdt_prop_tab_u32,
  fdt_prop_u32, fdt_prop_tab_u64, fdt_prop_tab_u64_2, fdt_prop_str, fdt_prop_tab_str,
}
use emuriscv.Fdt.Output.{fdt_output}

-- One call after the other.
unfoldable pub run_calls : List (FdtState → FdtState) → FdtState → FdtState
run_calls [] s = s
run_calls (call ∷ calls) s = run_calls calls (call s)

abbrev pub rtc_freq : ℕ
rtc_freq = 10000000

-- `cur_phandle` before the only `cur_phandle++`.
abbrev pub intc_phandle : ℕ
intc_phandle = 1

abbrev pub begin_node : String → FdtState → FdtState
begin_node name s = fdt_begin_node s (codes name)

abbrev pub begin_node_num : String → ℕ → FdtState → FdtState
begin_node_num name n s = fdt_begin_node_num s (codes name) n

abbrev pub end_node : FdtState → FdtState
end_node s = fdt_end_node s

abbrev pub prop : String → List ℕ → FdtState → FdtState
prop name bytes s = fdt_prop s (codes name) bytes

abbrev pub prop_u32 : String → ℕ → FdtState → FdtState
prop_u32 name v s = fdt_prop_u32 s (codes name) v

abbrev pub prop_tab_u32 : String → List ℕ → FdtState → FdtState
prop_tab_u32 name tab s = fdt_prop_tab_u32 s (codes name) tab

abbrev pub prop_u64 : String → ℕ → FdtState → FdtState
prop_u64 name v s = fdt_prop_tab_u64 s (codes name) v

abbrev pub prop_u64_2 : String → ℕ → ℕ → FdtState → FdtState
prop_u64_2 name v w s = fdt_prop_tab_u64_2 s (codes name) v w

abbrev pub prop_str : String → List ℕ → FdtState → FdtState
prop_str name str s = fdt_prop_str s (codes name) str

abbrev pub prop_tab_str : String → List (List ℕ) → FdtState → FdtState
prop_tab_str name strings s = fdt_prop_tab_str s (codes name) strings

unfoldable pub root_calls : List (FdtState → FdtState)
root_calls =
    begin_node ""
    ∷ prop_u32 "#address-cells" 2
    ∷ prop_u32 "#size-cells" 2
    ∷ prop_str "compatible" (codes "ucbbar,riscvemu-bar")
    ∷ prop_str "model" (codes "emuriscv,emuriscv")
    ∷ []

unfoldable pub cpu_calls : ℕ → List (FdtState → FdtState)
cpu_calls max_xlen =
    begin_node "cpus"
    ∷ prop_u32 "#address-cells" 1
    ∷ prop_u32 "#size-cells" 0
    ∷ prop_u32 "timebase-frequency" rtc_freq
    ∷ begin_node_num "cpu" 0
    ∷ prop_str "device_type" (codes "cpu")
    ∷ prop_u32 "reg" 0
    ∷ prop_str "status" (codes "okay")
    ∷ prop_str "compatible" (codes "riscv")
    ∷ prop_str "riscv,isa" (codes "rv32i")
    ∷ prop_str "mmu-type" (if leb max_xlen 32 then codes "riscv,sv32" else codes "riscv,sv48")
    ∷ prop_u32 "clock-frequency" rtc_freq
    ∷ begin_node "interrupt-controller"
    ∷ prop_u32 "#interrupt-cells" 1
    ∷ prop "interrupt-controller" []
    ∷ prop_str "compatible" (codes "riscv,cpu-intc")
    ∷ prop_u32 "phandle" intc_phandle
    ∷ end_node
    ∷ end_node
    ∷ end_node
    ∷ []

unfoldable pub memory_calls : ℕ → List (FdtState → FdtState)
memory_calls ram_size =
    begin_node_num "memory" ram_base_addr
    ∷ prop_str "device_type" (codes "memory")
    ∷ prop_tab_u32 "reg" (
        u32 (ram_base_addr / 2 ^ 32)
        ∷ u32 ram_base_addr
        ∷ u32 (ram_size / 2 ^ 32)
        ∷ u32 ram_size
        ∷ [])
    ∷ end_node
    ∷ []

unfoldable pub soc_calls : List (FdtState → FdtState)
soc_calls =
    begin_node "soc"
    ∷ prop_u32 "#address-cells" 2
    ∷ prop_u32 "#size-cells" 2
    ∷ prop_tab_str "compatible" (codes "ucbbar,riscvemu-bar-soc" ∷ codes "simple-bus" ∷ [])
    ∷ prop "ranges" []
    ∷ begin_node_num "clint" clint_base_addr
    ∷ prop_str "compatible" (codes "riscv,clint0")
    ∷ prop_tab_u32 "interrupts-extended" (intc_phandle ∷ 3 ∷ intc_phandle ∷ 7 ∷ [])
    ∷ prop_u64_2 "reg" clint_base_addr clint_size
    ∷ end_node
    ∷ begin_node_num "uart" uart_base_addr
    ∷ prop_str "compatible" (codes "sifive,uart0")
    ∷ prop_u64_2 "reg" uart_base_addr uart_size
    ∷ end_node
    ∷ end_node
    ∷ []

-- The test of `kernel_size`, around two calls.
unfoldable pub kernel_calls : ℕ → ℕ → FdtState → FdtState
kernel_calls kernel_start kernel_size s =
    if ltb 0 kernel_size
    then run_calls
        (prop_u64 "riscv,kernel-start" kernel_start
          ∷ prop_u64 "riscv,kernel-end" ((kernel_start + kernel_size) % 2 ^ 64)
          ∷ [])
        s
    else s

-- `none` is a null `cmd_line`.
unfoldable pub chosen_calls : ℕ → ℕ → Option (List ℕ) → List (FdtState → FdtState)
chosen_calls kernel_start kernel_size cmd_line =
    begin_node "chosen"
    ∷ prop_str "bootargs" (elim cmd_line [ none ↦ [] | some text ↦ text ])
    ∷ kernel_calls kernel_start kernel_size
    ∷ prop_str "stdout-path" (codes "/soc/uart@10000000")
    ∷ end_node
    ∷ end_node
    ∷ []

-- The state that `fdt_output` is called with.
unfoldable pub machine_tree : ℕ → ℕ → ℕ → ℕ → Option (List ℕ) → FdtState
machine_tree max_xlen ram_size kernel_start kernel_size cmd_line =
    let described = run_calls soc_calls (
      run_calls (memory_calls ram_size)
        (run_calls (cpu_calls max_xlen) (run_calls root_calls fdt_init))) in
    run_calls (chosen_calls kernel_start kernel_size cmd_line) described

unfoldable pub riscv_build_fdt : ℕ → ℕ → ℕ → ℕ → Option (List ℕ) → List ℕ × ℕ
riscv_build_fdt max_xlen ram_size kernel_start kernel_size cmd_line =
    fdt_output (machine_tree max_xlen ram_size kernel_start kernel_size cmd_line)

-- The other build copies a block from a file; `read_bin` gives the bytes of the file.
unfoldable pub riscv_load_fdt : (List ℕ → List ℕ) → List ℕ → List ℕ × ℕ
riscv_load_fdt read_bin filename = let dts = read_bin filename in (dts, length dts)
