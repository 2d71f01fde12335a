-- ===== src/Boot/Start/Laws.antt =====
-- From the set-up of the machine to the boot loader.
use emuriscv.Base.{
  ℕ, ◌+◌, ◌≡◌, ◌≤◌, refl, ap, ◌∙◌, sym, Bool, true, false, List, length, some, ok, ◌>>=◌,
}
use emuriscv.Machine.{State, Environment, priv_m, write_csr}
use emuriscv.Boot.{run_linux, ram_size, low_ram_size, ram_base_addr}
use emuriscv.Boot.Ranges.{ranges, cleared, initialize_riscv_machine-eq-ok}
use emuriscv.Boot.Load.{kernel_base, fdt_addr, load_bios_and_kernel}
use emuriscv.Boot.Load.Image.{boot_image, ram_image, tree_image, load_bios_and_kernel-eq-ok}
use emuriscv.Boot.Start.{at_bootloader, start_linux}
use emuriscv.Boot.Start.Handover.{
  Booting, first_round, second_round, third_round, fourth_round, fifth_round,
}

at_bootloader-Boots :
    (h l : ℕ → ℕ) → Booting h l 0x1000 0 0 0 (at_bootloader (ranges h (boot_image l)))
unfolding at_bootloader write_csr
at_bootloader-Boots h l = record {
  memory = refl;
  at_pc = refl;
  in_zero = refl;
  in_t0 = refl;
  in_a0 = refl;
  in_a1 = refl;
  level = refl;
  quiet = refl;
  hart = refl;
}

run_boot_code :
    (env : Environment) (h l : ℕ → ℕ) (s : State)
    → Booting h l 0x1000 0 0 0 s
    → (t : State) × (run_linux 5 env s ≡ ok t) × Booting h l ram_base_addr 0x80000000 0 fdt_addr t
unfolding run_linux
run_boot_code env h l s b =
    let (s1, e1, b1) = first_round env h l s b in
    let (s2, e2, b2) = second_round env h l s1 b1 in
    let (s3, e3, b3) = third_round env h l s2 b2 in
    let (s4, e4, b4) = fourth_round env h l s3 b3 in
    let (s5, e5, b5) = fifth_round env h l s4 b4 in (s5, rw (e1, e2, e3, e4, e5) refl, b5)

-- Where the host has the memory and the images fit, five rounds of the loop after the set-up hand over
-- to the boot loader: `pc` is at its first byte, in machine mode with no exception pending; a0 holds
-- the number of the hart, which is 0, and a1 the address of the device tree; and the memory is still
-- the one that was loaded.
pub start_linux-run_linux :
    (env : Environment) (malloc : ℕ → Bool) (bios kernel : List ℕ)
    → malloc ram_size ≡ true
    → malloc low_ram_size ≡ true
    → length bios ≤ ram_size
    → kernel_base (length bios) kernel + length kernel ≤ ram_size
    → (t : State) × (start_linux malloc (some bios) (some kernel) >>= (λ s. run_linux 5 env s)
        ≡ ok t)
      × (t.pc ≡ ram_base_addr)
      × (t.x 10 ≡ 0)
      × (t.x 11 ≡ fdt_addr)
      × (t.privilege ≡ priv_m)
      × (t.has_pending_exception ≡ false)
      × (load_bios_and_kernel (some bios) (some kernel) (ranges cleared cleared) ≡ ok t.memory_map)
unfolding start_linux
start_linux-run_linux env malloc bios kernel big low small fits =
    let h = ram_image bios kernel in
    let l = tree_image bios kernel in
    let loaded = load_bios_and_kernel-eq-ok bios kernel small fits in
    let s = at_bootloader (ranges h (boot_image l)) in
    let (t, e, b) = run_boot_code env h l s (at_bootloader-Boots h l) in
    (
      t,
      rw (initialize_riscv_machine-eq-ok malloc big low, loaded) e,
      b.at_pc,
      b.in_a0,
      b.in_a1,
      b.level,
      b.quiet,
      loaded ∙ ap ok (sym b.memory),
    )
