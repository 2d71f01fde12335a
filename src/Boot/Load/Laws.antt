-- ===== src/Boot/Load/Laws.antt =====
-- What lies where after `load_bios_and_kernel`.
use emuriscv.Base.{
  ℕ, zero, suc, ◌+◌, ◌*◌, ◌/◌, ◌-◌, ◌%◌, ◌^◌, ◌≤◌, ◌<◌, ◌≡◌, inl, inr, arith, refl, ap, ◌∙◌, ltb,
  if◌then◌else◌, List, [], ◌∷◌, length, some, ok, Bool-cases, lt→ltb, le→ltb,
}
use emuriscv.Memory.Map.{MemoryMap}
use emuriscv.Memory.Ram.{load_byte, load_from}
use emuriscv.Boot.{ram_size, low_ram_size, ram_base_addr}
use emuriscv.Boot.Ranges.{ranges, cleared}
use emuriscv.Boot.Load.{
  kernel_base, kernel_align, fdt_addr, device_tree, load_bios_and_kernel, linux_cmdline, max_xlen,
}
use emuriscv.Base.{byte_at}
use emuriscv.Boot.Load.Copy.{written, high, low, written_outside, written_inside}
use emuriscv.Boot.Load.Align.{aligned_base_lem}
use emuriscv.Boot.Load.Tree.{device_tree_lem}
use emuriscv.Boot.Load.Image.{ram_image, tree_image, boot_image, load_bios_and_kernel-eq-ok}
use emuriscv.Fdt.Format.{read_fdt}
use emuriscv.Fdt.Events.{machine_events}

-- The first multiple of four megabytes that is not below a number.
abbrev pub next_aligned : ℕ → ℕ
next_aligned n = (n + (kernel_align - 1)) / kernel_align * kernel_align

-- Where a kernel is put behind a boot loader of `n` bytes; no kernel is put at 0.
abbrev pub kernel_place : ℕ → List ℕ → ℕ
kernel_place n [] = 0
kernel_place n (b ∷ kernel) = next_aligned n

abbrev layout_at : ℕ → List ℕ → List ℕ → ℕ → ℕ
layout_at base bios kernel i =
    if ltb i (length bios)
    then byte_at bios i
    else if ltb i base
    then 0
    else byte_at kernel (i - base)

-- The byte at an offset of the RAM: the boot loader, then zeros up to the kernel, then the kernel.
abbrev pub ram_layout : List ℕ → List ℕ → ℕ → ℕ
ram_layout bios kernel i = layout_at (kernel_place (length bios) kernel) bios kernel i

byte_at-past : (bytes : List ℕ) (i : ℕ) → length bytes ≤ i → byte_at bytes i ≡ 0
byte_at-past [] i h = refl
byte_at-past (b ∷ bytes) zero h = absurd (omega arith)
byte_at-past (b ∷ bytes) (suc i) h = byte_at-past bytes i (omega arith)

-- The bytes of a list that is written over zeros.
written_over :
    (bs : List ℕ) (o : ℕ) (bytes : ℕ → ℕ) (j : ℕ)
    → o ≤ j
    → bytes j ≡ 0
    → written o bs bytes j ≡ byte_at bs (j - o)
written_over bs o bytes j le z = elim (Bool-cases (ltb (j - o) (length bs))) [
  | inl e ↦ ap (written o bs bytes) (omega arith) ∙ written_inside bs o bytes (j - o) (ground arith)
  | inr e ↦
      written_outside bs o bytes j (inr (ground arith))
      ∙ z
      ∙ ground (arith, byte_at-past bs (j - o))
]

placed : (n : ℕ) (kernel : List ℕ) → n ≤ ram_size → kernel_base n kernel ≡ kernel_place n kernel
unfolding kernel_base
placed n [] h = refl
placed n (b ∷ kernel) h = rw (lt→ltb 0 (length (b ∷ kernel)) (omega arith)) (aligned_base_lem n h)

-- The kernel starts behind the boot loader.
base_bounds : (n : ℕ) (b : ℕ) (kernel : List ℕ) → n ≤ ram_size → n ≤ kernel_base n (b ∷ kernel)
base_bounds n b kernel h = rw (placed n (b ∷ kernel) h) (omega arith)

bios_bytes : (bios : List ℕ) (i : ℕ) → written 0 bios cleared i ≡ byte_at bios i
bios_bytes bios i =
    written_over bios 0 cleared i (omega arith) refl ∙ ap (byte_at bios) (omega arith)

behind_bios : (bios : List ℕ) (i : ℕ) → length bios ≤ i → written 0 bios cleared i ≡ 0
behind_bios bios i h = bios_bytes bios i ∙ byte_at-past bios i h

ram_image-eq-layout_at :
    (bios kernel : List ℕ) (i : ℕ)
    → length bios ≤ ram_size
    → ram_image bios kernel i ≡ layout_at (kernel_base (length bios) kernel) bios kernel i
unfolding kernel_base
ram_image-eq-layout_at bios [] i h = elim (Bool-cases (ltb i (length bios))) [
  | inl e ↦ rw e (bios_bytes bios i)
  | inr e ↦ rw (e, le→ltb i 0 (omega arith)) (behind_bios bios i (ground arith))
]
ram_image-eq-layout_at bios (b ∷ kernel) i h =
    let base = kernel_base (length bios) (b ∷ kernel) in
    let bounds = base_bounds (length bios) b kernel h in
    elim (Bool-cases (ltb i (length bios))) [
      | inl e ↦ rw e (
          written_outside (b ∷ kernel) base (written 0 bios cleared) i
            (inl (ground (arith, bounds)))
          ∙ bios_bytes bios i)
      | inr e ↦ elim (Bool-cases (ltb i base)) [
        | inl f ↦
            rw (e, f)
              (written_outside (b ∷ kernel) base (written 0 bios cleared) i (inl (ground arith))
                ∙ behind_bios bios i (ground arith))
        | inr f ↦
            rw (e, f)
              (written_over (b ∷ kernel) base (written 0 bios cleared) i (ground arith)
                (behind_bios bios i (ground arith)))
      ]
    ]

ram_image-eq-ram_layout :
    (bios kernel : List ℕ) (i : ℕ)
    → length bios ≤ ram_size
    → ram_image bios kernel i ≡ ram_layout bios kernel i
ram_image-eq-ram_layout bios kernel i h =
    ram_image-eq-layout_at bios kernel i h
    ∙ ap (λ base. layout_at base bios kernel i) (placed (length bios) kernel h)

-- The boot code ends below the device tree.
tree_bytes :
    (bios kernel : List ℕ) (k : ℕ)
    → k < length (device_tree (kernel_base (length bios) kernel) kernel)
    → boot_image (tree_image bios kernel) (fdt_addr + k)
      ≡ byte_at (device_tree (kernel_base (length bios) kernel) kernel) k
tree_bytes bios kernel k h =
    boot_image_outside (tree_image bios kernel) (fdt_addr + k) (omega arith)
    ∙ written_inside (device_tree (kernel_base (length bios) kernel) kernel) fdt_addr cleared k h
  where
    boot_image_outside : (l : ℕ → ℕ) (j : ℕ) → fdt_addr ≤ j → boot_image l j ≡ l j
    boot_image_outside l j h' = ground arith

-- Where the boot loader and the kernel fit into the RAM, they are loaded: every byte of the RAM is that
-- of the boot loader at the start, of the kernel from the first multiple of four megabytes that is not
-- below the length of the boot loader, and zero
-- elsewhere; the bytes from `fdt_addr` on in the low RAM are a device tree from which a reader of the
-- format gets the description of the machine, with the address and the size of this kernel.
pub load_bios_and_kernel_lem :
    (bios kernel : List ℕ) (i k : ℕ)
    → length bios ≤ ram_size
    → kernel_base (length bios) kernel + length kernel ≤ ram_size
    → i < ram_size
    → k < length (device_tree (kernel_base (length bios) kernel) kernel)
    → let tree = device_tree (kernel_base (length bios) kernel) kernel in
      let start = (ram_base_addr + kernel_base (length bios) kernel) % 2 ^ 64 in
      (map : MemoryMap) × (load_bios_and_kernel (some bios) (some kernel) (ranges cleared cleared)
        ≡ ok map)
      × (load_byte map (high i) 0 ≡ ok (ram_layout bios kernel i))
      × (load_byte map (low (fdt_addr + k)) 0 ≡ ok (byte_at tree k))
      × (read_fdt tree
          ≡ some (machine_events max_xlen ram_size start (length kernel) (some linux_cmdline)))
      × (kernel_base (length bios) kernel ≡ kernel_place (length bios) kernel)
unfolding load_byte load_from
load_bios_and_kernel_lem bios kernel i k small fits hi hk =
    let lower = boot_image (tree_image bios kernel) in
    let described = device_tree_lem (kernel_base (length bios) kernel) kernel in
    (
      ranges (ram_image bios kernel) lower,
      load_bios_and_kernel-eq-ok bios kernel small fits,
      load_high (ram_image bios kernel) lower i hi
          ∙ ap ok (ram_image-eq-ram_layout bios kernel i small),
      load_low (ram_image bios kernel) lower (fdt_addr + k) (omega (arith, described.2))
          ∙ ap ok (tree_bytes bios kernel k hk),
      described.0,
      placed (length bios) kernel small,
    )
  where
    load_high : (h l : ℕ → ℕ) (o : ℕ) → o < ram_size → load_byte (ranges h l) (high o) 0 ≡ ok (h o)
    load_high h l o fit =
        rw (lt→ltb (o + 0) ram_size (omega arith)) (ap (λ j. ok (h j)) (omega arith))

    load_low :
        (h l : ℕ → ℕ) (o : ℕ) → o < low_ram_size → load_byte (ranges h l) (low o) 0 ≡ ok (l o)
    load_low h l o fit =
        rw (lt→ltb (o + 0) low_ram_size (omega arith)) (ap (λ j. ok (l j)) (omega arith))
