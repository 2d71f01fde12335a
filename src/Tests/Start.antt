-- ===== src/Tests/Start.antt =====
-- The loading of the images and the boot code, on a small boot loader and a small kernel.
use emuriscv.Base.{
  false, ℕ, zero, suc, ◌==◌, if◌then◌else◌, ◌+◌, ◌%◌, ◌^◌, ◌≡◌, refl, arith, true, List, [], ◌∷◌,
  length, some, ok, undefined, ◌>>=◌,
}
use emuriscv.Machine.{State, priv_m}
use emuriscv.Memory.Map.{MemoryMap}
use emuriscv.Memory.Ram.{load_byte}
use emuriscv.Boot.{run_linux, ram_size, ram_base_addr}
use emuriscv.Boot.Ranges.{ranges, cleared}
use emuriscv.Boot.Load.{
  kernel_base, aligned_base, fdt_addr, device_tree, load_bios_and_kernel, max_xlen, linux_cmdline,
}
use emuriscv.Base.{byte_at}
use emuriscv.Boot.Load.Copy.{high, low}
use emuriscv.Boot.Load.Laws.{ram_layout, kernel_place, load_bios_and_kernel_lem}
use emuriscv.Boot.Load.Tree.{device_tree_lem}
use emuriscv.Boot.Load.Errors.{load_bios_and_kernel-undefined}
use emuriscv.Boot.Start.{start_linux}
use emuriscv.Boot.Start.Laws.{start_linux-run_linux}
use emuriscv.Fdt.Format.{read_fdt}
use emuriscv.Fdt.Events.{machine_events}
use emuriscv.Symbols.{Symbol, get_symbol}
use emuriscv.Symbols.Table.{initialize_symbols}
use emuriscv.Symbols.Lookup.{Split, get_symbol-initialize_symbols}
use emuriscv.Tests.Machines.{quiet, machine}

abbrev bios : List ℕ
bios = 0x13 ∷ 0 ∷ 0 ∷ 0 ∷ []

abbrev kernel : List ℕ
kernel = 0x6f ∷ 0 ∷ []

start_linux-run_linux_example :
    (t : State) × (start_linux (λ size. true) (some bios) (some kernel)
        >>= (λ s. run_linux 5 quiet s)
      ≡ ok t)
    × (t.pc ≡ ram_base_addr)
    × (t.x 10 ≡ 0)
    × (t.x 11 ≡ fdt_addr)
    × (t.privilege ≡ priv_m)
    × (t.has_pending_exception ≡ false)
    × (load_bios_and_kernel (some bios) (some kernel) (ranges cleared cleared) ≡ ok t.memory_map)
unfolding kernel_base
start_linux-run_linux_example =
    start_linux-run_linux quiet (λ size. true) bios kernel refl refl (omega arith) (omega arith)

-- The first byte of the kernel, at four megabytes, and the first of the device tree.
load_bios_and_kernel_lem_example :
    (map : MemoryMap) × (load_bios_and_kernel (some bios) (some kernel) (ranges cleared cleared)
      ≡ ok map)
    × (load_byte map (high 0x400000) 0 ≡ ok (ram_layout bios kernel 0x400000))
    × (load_byte map (low (fdt_addr + 0)) 0
        ≡ ok (byte_at (device_tree (kernel_base 4 kernel) kernel) 0))
    × (read_fdt (device_tree (kernel_base 4 kernel) kernel)
        ≡ some (
            machine_events max_xlen ram_size
              ((ram_base_addr + kernel_base 4 kernel) % 2 ^ 64)
              2
              (some linux_cmdline)))
    × (kernel_base 4 kernel ≡ kernel_place 4 kernel)
unfolding kernel_base aligned_base
load_bios_and_kernel_lem_example =
    load_bios_and_kernel_lem bios kernel 0x400000 0 (omega arith) (omega arith) (omega arith)
      (omega (arith, (device_tree_lem (kernel_base 4 kernel) kernel).1))

long_file : ℕ → List ℕ
long_file zero = []
long_file (suc n) = 1 ∷ long_file n

length-long_file : (n : ℕ) → length (long_file n) ≡ n
unfolding long_file
length-long_file zero = refl
length-long_file (suc n) = omega (arith, length-long_file n)

-- A kernel of one byte more than the RAM.
load_bios_and_kernel-undefined_example :
    load_bios_and_kernel (some bios) (some (long_file 0x6000001)) (ranges cleared cleared)
    ≡ undefined
load_bios_and_kernel-undefined_example =
    load_bios_and_kernel-undefined bios (long_file 0x6000001) (omega arith)
      (omega (arith, length-long_file 0x6000001))

-- In the middle of `strlen`.
get_symbol-initialize_symbols_example :
    (found : Symbol) × (get_symbol initialize_symbols 0x80009220 ≡ ok found)
    × Split initialize_symbols 0x80009220 found
get_symbol-initialize_symbols_example = get_symbol-initialize_symbols 0x80009220 (omega arith)

-- The word 0x13 at 0x80000000: `addi x0, x0, 0`.
abbrev one_nop : State
one_nop = record (machine (λ i. if i == 0 then 0x13 else 0)) { pc = 0x80000000 }
