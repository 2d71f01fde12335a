-- ===== src/Cpu/Privileged/Returns.antt =====
-- A trap and the return from it.
use emuriscv.Base.{ℕ, ◌*◌, ◌/◌, ◌%◌, ◌^◌, ◌≤◌, ◌<◌, ◌≡◌, refl, ◌∙◌, arith}
use emuriscv.Base.{sub32, if◌then◌else◌, inl, inr, ◌⊎◌, ok, bit_and, u32}
use emuriscv.Base.{Bool-cases, &&-eq-true, leb→le}
use emuriscv.Machine.{
  State, Status, running, breakpoint, exit_termination, status_code, read_csr, write_csr, priv_m,
  priv_s,
}
use emuriscv.Cpu.Exception.{
  raise_exception, trap_to_m, trap_to_s, clear_pending, get_field, set_field,
}
use emuriscv.Cpu.Exception.{csr_mstatus, csr_medeleg, mask_low_bit}
use emuriscv.Cpu.Exception.{
  mstatus_mpp, mstatus_spp, mstatus_mie, mstatus_sie, mstatus_spie, mstatus_tsr,
}
use emuriscv.Cpu.Exception.Fields.{get_field-set_field, get_field-set_field_other}
use emuriscv.Cpu.Exception.Laws.{raise_exception-machine, raise_exception-delegated, is_delegated}
use emuriscv.Cpu.Exception.Laws.{
  raise_exception_to_m, raise_exception_to_s, delegated, not_delegated,
}
use emuriscv.Cpu.Privileged.{mret, sret, return_from_m, return_from_s}

le_three : (p : ℕ) → p ≤ 3 → (p ≡ 0) ⊎ ((p ≡ 1) ⊎ ((p ≡ 2) ⊎ (p ≡ 3)))
le_three p h = ground arith

mpp_fits :
    (p : ℕ)
    → p ≤ 3
    → bit_and (u32 (p * mask_low_bit mstatus_mpp)) mstatus_mpp / mask_low_bit mstatus_mpp ≡ p
mpp_fits p h = elim (le_three p h) [
  | inl e ↦ rw e refl
  | inr (inl e) ↦ rw e refl
  | inr (inr (inl e)) ↦ rw e refl
  | inr (inr (inr e)) ↦ rw e refl
]

-- The privilege that a trap to machine mode saves.
mpp-trap_to_m :
    (s : State) (cause tval : ℕ)
    → s.privilege ≤ 3
    → get_field (read_csr (trap_to_m s cause tval) csr_mstatus) mstatus_mpp ≡ s.privilege
unfolding trap_to_m write_csr read_csr
mpp-trap_to_m s cause tval h =
    get_field-set_field_other _ mstatus_mie 0 mstatus_mpp refl refl
    ∙ get_field-set_field _ mstatus_mpp s.privilege refl
    ∙ mpp_fits s.privilege h

mret_in_m :
    (t : State) (instruction : ℕ) → t.privilege ≡ priv_m → mret t instruction ≡ ok (return_from_m t)
unfolding mret
mret_in_m t instruction h = rw h refl

-- After an exception that is taken in machine mode, `mret` goes back to the instruction that
-- trapped, with the privilege that it ran at, and with its registers and memory.
pub mret-raise_exception :
    (s : State) (instruction cause tval : ℕ)
    → cause < 32
    → s.privilege ≤ 3
    → (1 < s.privilege) ⊎ (read_csr s csr_medeleg / 2 ^ cause % 2 ≡ 0)
    → (after : State) × (mret (raise_exception s cause tval) instruction ≡ ok after)
      × (after.pc ≡ sub32 s.pc 4)
      × (after.privilege ≡ s.privilege)
      × (after.x ≡ s.x)
      × (after.memory_map ≡ s.memory_map)
unfolding return_from_m write_csr clear_pending read_csr
mret-raise_exception s instruction cause tval small fits why =
    let t = raise_exception s cause tval in
    let trap = raise_exception-machine s cause tval small why in
    let e = raise_exception_to_m s cause tval (not_delegated s cause small why) in
    let mpp : get_field (t.csr csr_mstatus) mstatus_mpp ≡ s.privilege =
      rw e (mpp-trap_to_m s cause tval fits) in
    (
      return_from_m t,
      mret_in_m t instruction trap.privilege,
      trap.return_address,
      mpp,
      trap.registers,
      trap.memory,
    )

le_one : (p : ℕ) → p ≤ 1 → (p ≡ 0) ⊎ (p ≡ 1)
le_one p h = ground arith

spp_fits :
    (p : ℕ)
    → p ≤ 1
    → bit_and (u32 (p * mask_low_bit mstatus_spp)) mstatus_spp / mask_low_bit mstatus_spp ≡ p
spp_fits p h = elim (le_one p h) [ inl e ↦ rw e refl | inr e ↦ rw e refl ]

pub spp-trap_to_s :
    (s : State) (cause tval : ℕ)
    → s.privilege ≤ 1
    → get_field (read_csr (trap_to_s s cause tval) csr_mstatus) mstatus_spp ≡ s.privilege
unfolding trap_to_s write_csr read_csr
spp-trap_to_s s cause tval h =
    get_field-set_field_other _ mstatus_sie 0 mstatus_spp refl refl
    ∙ get_field-set_field _ mstatus_spp s.privilege refl
    ∙ spp_fits s.privilege h

-- A trap leaves TSR clear, since it makes `mstatus` anew from the run status.
tsr-status : (status : Status) → get_field (status_code status) mstatus_tsr ≡ 0
unfolding status_code get_field
tsr-status running = refl
tsr-status breakpoint = refl
tsr-status exit_termination = refl

tsr-trap_to_s :
    (s : State) (cause tval : ℕ)
    → get_field (read_csr (trap_to_s s cause tval) csr_mstatus) mstatus_tsr ≡ 0
unfolding trap_to_s write_csr read_csr
tsr-trap_to_s s cause tval =
    get_field-set_field_other _ mstatus_sie 0 mstatus_tsr refl refl
    ∙ get_field-set_field_other _ mstatus_spp s.privilege mstatus_tsr refl refl
    ∙ get_field-set_field_other _ mstatus_spie _ mstatus_tsr refl refl
    ∙ tsr-status s.status

sret_in_s :
    (t : State) (instruction : ℕ)
    → t.privilege ≡ priv_s
    → get_field (read_csr t csr_mstatus) mstatus_tsr ≡ 0
    → sret t instruction ≡ ok (return_from_s t)
unfolding sret
sret_in_s t instruction h clear = rw (clear, h) refl

-- After an exception that is delegated to supervisor mode, `sret` goes back to the instruction that
-- trapped, with the privilege that it ran at, and with its registers and memory.
pub sret-raise_exception :
    (s : State) (instruction cause tval : ℕ)
    → cause < 32
    → s.privilege ≤ 1
    → read_csr s csr_medeleg / 2 ^ cause % 2 ≡ 1
    → (after : State) × (sret (raise_exception s cause tval) instruction ≡ ok after)
      × (after.pc ≡ sub32 s.pc 4)
      × (after.privilege ≡ s.privilege)
      × (after.x ≡ s.x)
      × (after.memory_map ≡ s.memory_map)
unfolding return_from_s write_csr clear_pending read_csr
sret-raise_exception s instruction cause tval small below set =
    let t = raise_exception s cause tval in
    let trap = raise_exception-delegated s cause tval small below set in
    let e = raise_exception_to_s s cause tval (delegated s cause small below set) in
    let spp : get_field (t.csr csr_mstatus) mstatus_spp ≡ s.privilege =
      rw e (spp-trap_to_s s cause tval below) in
    let tsr : get_field (t.csr csr_mstatus) mstatus_tsr ≡ 0 = rw e (tsr-trap_to_s s cause tval) in
    (
      return_from_s t,
      sret_in_s t instruction trap.privilege tsr,
      trap.return_address,
      spp,
      trap.registers,
      trap.memory,
    )

mstatus-trap_to_m :
    (s : State) (cause tval : ℕ)
    → s.status ≡ running
    → s.privilege ≤ 3
    → read_csr (trap_to_m s cause tval) csr_mstatus ≡ s.privilege * 2 ^ 11
unfolding trap_to_m write_csr read_csr status_code set_field get_field
mstatus-trap_to_m s cause tval run h = elim (le_three s.privilege h) [
  | inl e ↦ rw (run, e) refl
  | inr (inl e) ↦ rw (run, e) refl
  | inr (inr (inl e)) ↦ rw (run, e) refl
  | inr (inr (inr e)) ↦ rw (run, e) refl
]

mstatus-trap_to_s :
    (s : State) (cause tval : ℕ)
    → s.status ≡ running
    → s.privilege ≤ 1
    → read_csr (trap_to_s s cause tval) csr_mstatus ≡ s.privilege * 2 ^ 8
unfolding trap_to_s write_csr read_csr status_code set_field get_field
mstatus-trap_to_s s cause tval run h = elim (le_one s.privilege h) [
  | inl e ↦ rw (run, e) refl
  | inr e ↦ rw (run, e) refl
]

-- While the emulator runs, the `mstatus` after a trap is the old privilege, at the place of SPP or
-- of MPP, with every other bit clear.
pub raise_exception-mstatus :
    (s : State) (cause tval : ℕ)
    → s.status ≡ running
    → s.privilege ≤ 3
    → read_csr (raise_exception s cause tval) csr_mstatus
      ≡ (if is_delegated s cause then s.privilege * 2 ^ 8 else s.privilege * 2 ^ 11)
unfolding clear_pending read_csr
raise_exception-mstatus s cause tval run fits = elim (Bool-cases (is_delegated s cause)) [
  | inl d ↦
      let below : s.privilege ≤ 1 = leb→le _ _ (&&-eq-true _ _ d).0 in
      rw (raise_exception_to_s s cause tval d, d) (mstatus-trap_to_s s cause tval run below)
  | inr d ↦ rw (raise_exception_to_m s cause tval d, d) (mstatus-trap_to_m s cause tval run fits)
]
