-- ===== src/Boot/Load/Image.antt =====
-- The memory that `load_bios_and_kernel` leaves.
use emuriscv.Base.{
  ℕ, ◌+◌, ◌≤◌, ◌≡◌, arith, refl, ap, ◌∙◌, List, [], ◌∷◌, length, some, ok, lt→ltb, le→ltb,
}
use emuriscv.Memory.Map.{get_phys_mem_range, in_range}
use emuriscv.Memory.Ram.{write_case_word}
use emuriscv.Memory.Ram.RoundTrip.{IsBacked, with_bytes, stored_word, write_case_word-with_bytes}
use emuriscv.Memory.Map.{ram}
use emuriscv.Boot.{ram_size, low_ram_size, ram_base_addr, write_bootloader}
use emuriscv.Boot.Ranges.{ranges, cleared}
use emuriscv.Boot.Load.{
  store_bytes, memcpy, kernel_base, copy_kernel, fdt_addr, device_tree, boot_code, load_images,
  load_bios_and_kernel, read_bin, get_ram_ptr, phys_mem_get_ram_ptr,
}
use emuriscv.Boot.Load.Copy.{written, high, low, store_bytes-high, store_bytes-low}
use emuriscv.Boot.Load.Tree.{device_tree_lem}

-- The first byte of the RAM, and of the low RAM.
pub pointers :
    (h l : ℕ → ℕ)
    → (get_ram_ptr (ranges h l) ram_base_addr ≡ some (high 0))
      × (get_ram_ptr (ranges h l) 0 ≡ some (low 0))
unfolding phys_mem_get_ram_ptr get_phys_mem_range in_range
pointers h l = (refl, refl)

-- The RAM with the two images.
abbrev pub ram_image : List ℕ → List ℕ → ℕ → ℕ
ram_image bios kernel = written (kernel_base (length bios) kernel) kernel (written 0 bios cleared)

-- The low RAM with the device tree.
abbrev pub tree_image : List ℕ → List ℕ → ℕ → ℕ
tree_image bios kernel =
    written fdt_addr (device_tree (kernel_base (length bios) kernel) kernel) cleared

copy_kernel_lem :
    (kernel : List ℕ) (h l : ℕ → ℕ) (base : ℕ)
    → base + length kernel ≤ ram_size
    → copy_kernel (ranges h l) (some (high 0)) base kernel ≡ ok (ranges (written base kernel h) l)
unfolding copy_kernel memcpy
copy_kernel_lem [] h l base fits = refl
copy_kernel_lem (b ∷ kernel) h l base fits = rw (lt→ltb 0 (length (b ∷ kernel)) (omega arith)) (
    ap (λ o. store_bytes (ranges h l) (high o) (b ∷ kernel)) (omega arith)
    ∙ store_bytes-high (b ∷ kernel) h l base fits)

-- The words of the boot code over other bytes.
abbrev pub boot_image : (ℕ → ℕ) → ℕ → ℕ
boot_image l = stored_word 0x1010 0x00028067 (
    stored_word 0x100c 0xf1402573
      (stored_word 0x1008 0x03c58593 (stored_word 0x1004 0x597 (stored_word 0x1000 0x7ffff297 l))))

write_case_word-low :
    (h l : ℕ → ℕ) (o v : ℕ)
    → o + 4 ≤ low_ram_size
    → write_case_word (ranges h l) (low o) v ≡ ok (ranges h (stored_word o v l))
unfolding with_bytes
write_case_word-low h l o v fits =
    write_case_word-with_bytes (low_backed h l o fits) l v (omega arith)
  where
    low_backed :
        (h' l' : ℕ → ℕ) (o' : ℕ)
        → o' + 4 ≤ low_ram_size
        → IsBacked
            (ranges h' l')
            (low o')
            (record { address = 0; size = low_ram_size; backing = ram l' })
            l'
            4
    low_backed h' l' o' fits' = record { there = refl; is_ram = refl; inside = fits' }

write_bootloader_lem :
    (h l : ℕ → ℕ) → write_bootloader (ranges h l) (low 0) fdt_addr ≡ ok (ranges h (boot_image l))
unfolding write_bootloader
write_bootloader_lem h l =
    let l1 = stored_word 0x1000 0x7ffff297 l in
    let l2 = stored_word 0x1004 0x597 l1 in
    let l3 = stored_word 0x1008 0x03c58593 l2 in
    let l4 = stored_word 0x100c 0xf1402573 l3 in
    rw
      (
        write_case_word-low h l 0x1000 0x7ffff297 (omega arith),
        write_case_word-low h l1 0x1004 0x597 (omega arith),
        write_case_word-low h l2 0x1008 0x03c58593 (omega arith),
        write_case_word-low h l3 0x100c 0xf1402573 (omega arith),
      )
      (write_case_word-low h l4 0x1010 0x00028067 (omega arith))

-- Where the images fit, they are loaded.
pub load_bios_and_kernel-eq-ok :
    (bios kernel : List ℕ)
    → length bios ≤ ram_size
    → kernel_base (length bios) kernel + length kernel ≤ ram_size
    → load_bios_and_kernel (some bios) (some kernel) (ranges cleared cleared)
      ≡ ok (ranges (ram_image bios kernel) (boot_image (tree_image bios kernel)))
unfolding load_bios_and_kernel load_images memcpy read_bin boot_code
load_bios_and_kernel-eq-ok bios kernel small fits =
    let base = kernel_base (length bios) kernel in
    let with_bios = written 0 bios cleared in
    let with_kernel = written base kernel with_bios in
    let tree = device_tree base kernel in
    let (read, least, most) = device_tree_lem base kernel in
    rw
      (
        le→ltb ram_size (length bios) small,
        (pointers cleared cleared).0,
        store_bytes-high bios cleared cleared 0 (omega arith),
        copy_kernel_lem kernel with_bios cleared base fits,
        (pointers with_kernel cleared).1,
        store_bytes-low tree with_kernel cleared fdt_addr (omega arith),
      )
      (write_bootloader_lem with_kernel (written fdt_addr tree cleared))
