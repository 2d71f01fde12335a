-- ===== src/Boot/Load.antt =====
-- `load_bios_and_kernel` of run_linux.c, with `get_ram_ptr` and `read_bin` of support_io.c: the boot
-- loader, the kernel, the device tree and the boot code are put into the RAM.
pub mod Copy
pub mod Align
pub mod Tree
pub mod Image
pub mod Laws
pub mod Errors
use emuriscv.Base.{
  ℕ, ◌+◌, ◌*◌, ◌-◌, ◌^◌, ◌%◌, ltb, if◌then◌else◌, add32, sub32, bit_and, List, [], ◌∷◌, length,
  Option, none, some, Outcome, ok, exit, undefined, ◌>>=◌,
}
use emuriscv.Memory.Map.{MemoryMap, MemoryRange, get_phys_mem_range}
use emuriscv.Memory.Ram.{MemoryTarget, store_byte}
use emuriscv.Base.{get_elem?}
use emuriscv.Boot.{ram_size, ram_base_addr, bootloader_address, write_bootloader}
use emuriscv.Fdt.Text.{codes}
use emuriscv.Fdt.Build.{riscv_build_fdt}

abbrev pub exit_bootloader_too_big : ℕ
exit_bootloader_too_big = 1

abbrev pub exit_cannot_load_test_binary : ℕ
exit_cannot_load_test_binary = 0x1000

abbrev pub max_xlen : ℕ
max_xlen = 32

abbrev pub linux_cmdline : List ℕ
linux_cmdline = codes "debug keep_bootcon bootmem_debug earlycon=sbi"

-- The bytes of the file, or no such file.
unfoldable pub read_bin : Option (List ℕ) → Outcome (List ℕ)
read_bin none = exit exit_cannot_load_test_binary
read_bin (some bytes) = ok bytes

-- `phys_mem_ptr` of the range, plus the offset in it; `none` is the null pointer.
unfoldable pub phys_mem_get_ram_ptr : MemoryMap → ℕ → Option MemoryTarget
phys_mem_get_ram_ptr map paddr = elim (get_phys_mem_range map paddr) [
  | none ↦ none
  | some i ↦ elim (get_elem? map i) [
    | none ↦ none
    | some pr ↦ some (record { range = i; offset = sub32 paddr pr.address })
  ]
]

abbrev pub get_ram_ptr : MemoryMap → ℕ → Option MemoryTarget
unfolding phys_mem_get_ram_ptr
get_ram_ptr map paddr = phys_mem_get_ram_ptr map paddr

unfoldable pub store_bytes : MemoryMap → MemoryTarget → List ℕ → Outcome MemoryMap
store_bytes map target [] = ok map
store_bytes map target (b ∷ bytes) = store_byte map target 0 b >>= λ map'.
    store_bytes map' (record target { offset = target.offset + 1 }) bytes

-- `memcpy(ram_ptr + offset, bytes, length)`.
unfoldable pub memcpy : MemoryMap → Option MemoryTarget → ℕ → List ℕ → Outcome MemoryMap
unfolding store_bytes
memcpy map none offset bytes = undefined
memcpy map (some target) offset bytes =
    store_bytes map (record target { offset = target.offset + offset }) bytes

abbrev pub kernel_align : ℕ
kernel_align = 4 * 2 ^ 20

-- `(buf_len + kernel_align - 1) & ~(kernel_align - 1)`, on `uint32_t`.
unfoldable pub aligned_base : ℕ → ℕ
aligned_base buf_len = bit_and (sub32 (add32 buf_len kernel_align) 1) (2 ^ 32 - kernel_align)

-- The kernel is copied only if it is not empty.
unfoldable pub kernel_base : ℕ → List ℕ → ℕ
unfolding aligned_base
kernel_base buf_len kernel_buf = if ltb 0 (length kernel_buf) then aligned_base buf_len else 0

unfoldable pub copy_kernel : MemoryMap → Option MemoryTarget → ℕ → List ℕ → Outcome MemoryMap
unfolding memcpy
copy_kernel map ram_ptr base kernel_buf =
    if ltb 0 (length kernel_buf) then memcpy map ram_ptr base kernel_buf else ok map

abbrev pub fdt_addr : ℕ
fdt_addr = bootloader_address + 8 * 8

-- The block that `riscv_build_fdt` leaves at its `dst`.
unfoldable pub device_tree : ℕ → List ℕ → List ℕ
device_tree base kernel_buf =
    (riscv_build_fdt max_xlen ram_size ((ram_base_addr + base) % 2 ^ 64) (length kernel_buf)
      (some linux_cmdline)).0

-- `write_bootloader` on a null pointer.
unfoldable pub boot_code : MemoryMap → Option MemoryTarget → Outcome MemoryMap
boot_code map none = undefined
boot_code map (some ram_ptr) = write_bootloader map ram_ptr fdt_addr

unfoldable pub load_images : MemoryMap → List ℕ → Option (List ℕ) → Outcome MemoryMap
unfolding memcpy read_bin copy_kernel kernel_base device_tree boot_code
load_images map buf kernel_file =
    let ram_ptr = get_ram_ptr map ram_base_addr in
    memcpy map ram_ptr 0 buf >>= λ with_bios. read_bin kernel_file >>= λ kernel_buf.
    let base = kernel_base (length buf) kernel_buf in
    copy_kernel with_bios ram_ptr base kernel_buf >>= λ with_kernel.
    let low_ptr = get_ram_ptr with_kernel 0 in
    memcpy with_kernel low_ptr fdt_addr (device_tree base kernel_buf) >>= λ with_tree.
    boot_code with_tree low_ptr

-- The files of the boot loader and of the kernel are arguments, `none` where there is no such file.
-- The kernel is not read where the boot loader is too big.
unfoldable pub load_bios_and_kernel :
    Option (List ℕ) → Option (List ℕ) → MemoryMap → Outcome MemoryMap
unfolding load_images
load_bios_and_kernel bios_file kernel_file map = read_bin bios_file >>= λ buf.
    if ltb ram_size (length buf)
    then exit exit_bootloader_too_big
    else load_images map buf kernel_file
