-- ===== src/Cpu/Exception/Supervisor.antt =====
-- The whole state after a trap to supervisor mode.
use emuriscv.Base.{
  ℕ, ◌/◌, ◌%◌, ◌^◌, ◌≤◌, ◌<◌, ◌≡◌, ◌⊎◌, ◌==◌, inl, inr, refl, arith, Bool-cases, ◌∙◌, update, sub32,
}
use emuriscv.Machine.{State, read_csr, write_csr, priv_s}
use emuriscv.Cpu.Exception.{
  raise_exception, trap_to_s, clear_pending, get_field, csr_medeleg, csr_mstatus, csr_sepc,
  csr_scause, csr_stval, csr_stvec, mstatus_sie, mstatus_spp,
}
use emuriscv.Cpu.Exception.Fields.{get_field-set_field}
use emuriscv.Cpu.Exception.Laws.{IsTrap, raise_exception_to_s, raise_exception-delegated, delegated}
use emuriscv.Cpu.Privileged.Returns.{spp-trap_to_s}

-- The CSRs that a trap to supervisor mode writes.
abbrev pub IsTrapCsr : ℕ → Type 0
IsTrapCsr csr = (csr ≡ csr_sepc) ⊎ ((csr ≡ csr_scause) ⊎ ((csr ≡ csr_stval) ⊎ (csr ≡ csr_mstatus)))

-- What a trap leaves besides what `IsTrap` says: the privilege before is in SPP and SIE is clear, no
-- value is pending, and every other part of the state is as it was.
pub record IsQuietTrap (s after : State) : Type 0 where
  pub saved_privilege : get_field (read_csr after csr_mstatus) mstatus_spp ≡ s.privilege
  pub interrupts_off : get_field (read_csr after csr_mstatus) mstatus_sie ≡ 0
  pub no_value_pending : after.pending_tval ≡ 0
  pub other_csrs : (csr : ℕ) → IsTrapCsr csr ⊎ (read_csr after csr ≡ read_csr s csr)
  pub hart : after.mhartid ≡ s.mhartid
  pub run_status : after.status ≡ s.status
  pub counter : after.instruction_counter ≡ s.instruction_counter
  pub reservation : after.load_reservation ≡ s.load_reservation
  pub history : after.pc_history ≡ s.pc_history
  pub devices : after.vm ≡ s.vm
  pub host_console : after.console ≡ s.console

update_other : (f : ℕ → ℕ) (i v k : ℕ) → (k ≡ i) ⊎ (update f i v k ≡ f k)
update_other f i v k = elim (Bool-cases (k == i)) [
  | inl e ↦ inl (ground arith)
  | inr e ↦ inr (ground arith)
]

four_updates :
    (f : ℕ → ℕ) (w x y z csr : ℕ)
    → IsTrapCsr csr
      ⊎ (update (update (update (update f csr_sepc w) csr_scause x) csr_stval y) csr_mstatus z csr
          ≡ f csr)
four_updates f w x y z csr =
    let f1 = update f csr_sepc w in
    let f2 = update f1 csr_scause x in
    let f3 = update f2 csr_stval y in
    elim (update_other f3 csr_mstatus z csr) [
      | inl e ↦ inl (inr (inr (inr e)))
      | inr e0 ↦ elim (update_other f2 csr_stval y csr) [
        | inl e ↦ inl (inr (inr (inl e)))
        | inr e1 ↦ elim (update_other f1 csr_scause x csr) [
          | inl e ↦ inl (inr (inl e))
          | inr e2 ↦ elim (update_other f csr_sepc w csr) [
            | inl e ↦ inl (inl e)
            | inr e3 ↦ inr (e0 ∙ e1 ∙ e2 ∙ e3)
          ]
        ]
      ]
    ]

other_csrs-trap_to_s :
    (s : State) (cause tval csr : ℕ)
    → IsTrapCsr csr ⊎ (read_csr (trap_to_s s cause tval) csr ≡ read_csr s csr)
unfolding trap_to_s write_csr read_csr
other_csrs-trap_to_s s cause tval csr =
    four_updates s.csr (sub32 s.pc 4) cause tval ((trap_to_s s cause tval).csr csr_mstatus) csr

sie-trap_to_s :
    (s : State) (cause tval : ℕ)
    → get_field (read_csr (trap_to_s s cause tval) csr_mstatus) mstatus_sie ≡ 0
unfolding trap_to_s write_csr read_csr
sie-trap_to_s s cause tval = get_field-set_field _ mstatus_sie 0 refl

trap_to_s-IsQuietTrap :
    (s : State) (cause tval : ℕ)
    → s.privilege ≤ 1
    → IsQuietTrap s (clear_pending (trap_to_s s cause tval))
unfolding clear_pending trap_to_s write_csr read_csr
trap_to_s-IsQuietTrap s cause tval below = record {
  saved_privilege = spp-trap_to_s s cause tval below;
  interrupts_off = sie-trap_to_s s cause tval;
  no_value_pending = refl;
  other_csrs = other_csrs-trap_to_s s cause tval;
  hart = refl;
  run_status = refl;
  counter = refl;
  reservation = refl;
  history = refl;
  devices = refl;
  host_console = refl;
}

-- An exception at user or supervisor privilege whose bit in `medeleg` is set is taken in supervisor
-- mode: `pc` is at `stvec`, the address of the instruction, the cause and the value are in their
-- CSRs, SPP in `mstatus` holds the privilege before and SIE is clear, nothing is pending, and every
-- other CSR, the registers, the memory, the counter, the reservation, the history of `pc` and the
-- devices are as they were.
pub raise_exception-supervisor :
    (s : State) (cause tval : ℕ)
    → cause < 32
    → s.privilege ≤ 1
    → read_csr s csr_medeleg / 2 ^ cause % 2 ≡ 1
    → IsTrap s
        (raise_exception s cause tval)
        cause
        tval
        priv_s
        csr_sepc
        csr_scause
        csr_stval
        csr_stvec
      × IsQuietTrap s (raise_exception s cause tval)
raise_exception-supervisor s cause tval h below set = (
  raise_exception-delegated s cause tval h below set,
  rw (raise_exception_to_s s cause tval (delegated s cause h below set))
      (trap_to_s-IsQuietTrap s cause tval below),
)
