-- ===== src/Boot/Load/Errors.antt =====
-- Images that do not fit.
use emuriscv.Base.{
  ℕ, ◌+◌, ◌≤◌, ◌<◌, ◌≡◌, refl, arith, inl, inr, ap, ◌∙◌, Bool-cases, ltb, lt→ltb, le→ltb, update,
  List, [], ◌∷◌, length, some, undefined,
}
use emuriscv.Memory.Ram.{store_byte, store_to}
use emuriscv.Boot.{ram_size}
use emuriscv.Boot.Ranges.{ranges, cleared}
use emuriscv.Boot.Load.{
  store_bytes, kernel_base, copy_kernel, memcpy, load_images, load_bios_and_kernel, read_bin,
}
use emuriscv.Boot.Load.Copy.{written, high, store_bytes-high, store_byte-high}
use emuriscv.Boot.Load.Image.{pointers}
use emuriscv.Boot.Load.Align.{aligned_base_lem}

store_byte-undefined :
    (h l : ℕ → ℕ) (o b : ℕ) → ram_size ≤ o → store_byte (ranges h l) (high o) 0 b ≡ undefined
unfolding store_byte store_to
store_byte-undefined h l o b past = rw (le→ltb (o + 0) ram_size (omega arith)) refl

store_bytes-undefined :
    (bs : List ℕ) (b : ℕ) (h l : ℕ → ℕ) (o : ℕ)
    → ram_size < o + length (b ∷ bs)
    → store_bytes (ranges h l) (high o) (b ∷ bs) ≡ undefined
unfolding store_bytes
store_bytes-undefined [] b h l o past = rw (store_byte-undefined h l o b (omega arith)) refl
store_bytes-undefined (c ∷ bs) b h l o past = elim (Bool-cases (ltb o ram_size)) [
  | inr e ↦ rw (store_byte-undefined h l o b (ground arith)) refl
  | inl e ↦
      rw (store_byte-high h l o b (ground arith))
        (store_bytes-undefined bs c (update h o b) l (o + 1) (omega arith))
]

copy_kernel-undefined :
    (kernel : List ℕ) (h l : ℕ → ℕ) (base : ℕ)
    → base ≤ ram_size
    → ram_size < base + length kernel
    → copy_kernel (ranges h l) (some (high 0)) base kernel ≡ undefined
unfolding copy_kernel memcpy
copy_kernel-undefined [] h l base inside past = absurd (omega arith)
copy_kernel-undefined (b ∷ kernel) h l base inside past =
    rw (lt→ltb 0 (length (b ∷ kernel)) (omega arith)) (
      ap (λ o. store_bytes (ranges h l) (high o) (b ∷ kernel)) (omega arith)
      ∙ store_bytes-undefined kernel b h l base past)

kernel_base-le : (n : ℕ) (kernel : List ℕ) → n ≤ ram_size → kernel_base n kernel ≤ ram_size
unfolding kernel_base
kernel_base-le n [] h = omega arith
kernel_base-le n (b ∷ kernel) h =
    rw (lt→ltb 0 (length (b ∷ kernel)) (omega arith), aligned_base_lem n h) (omega arith)

-- No test stands before the copy of the kernel: where the boot loader fits into the RAM and the kernel
-- reaches past its end, the kernel is written out of bounds.
pub load_bios_and_kernel-undefined :
    (bios kernel : List ℕ)
    → length bios ≤ ram_size
    → ram_size < kernel_base (length bios) kernel + length kernel
    → load_bios_and_kernel (some bios) (some kernel) (ranges cleared cleared) ≡ undefined
unfolding load_bios_and_kernel load_images memcpy read_bin
load_bios_and_kernel-undefined bios kernel small past =
    rw
      (
        le→ltb ram_size (length bios) small,
        (pointers cleared cleared).0,
        store_bytes-high bios cleared cleared 0 (omega arith),
        copy_kernel-undefined kernel (written 0 bios cleared) cleared
            (kernel_base (length bios) kernel) (kernel_base-le (length bios) kernel small) past,
      )
      refl
