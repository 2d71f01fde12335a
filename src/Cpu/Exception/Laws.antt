-- ===== src/Cpu/Exception/Laws.antt =====
-- What a trap leaves in the registers that its handler reads.
use emuriscv.Base.{ℕ, ◌/◌, ◌%◌, ◌^◌, ◌≤◌, ◌<◌, ◌≡◌, refl, arith}
use emuriscv.Base.{Bool, true, false, ◌&&◌, leb, sub32, ◌⊎◌, ◌==◌, not, bit_and}
use emuriscv.Base.{lt→ltb}
use emuriscv.Bits.{bit_and-fields, bit_and-zero, bit_and_mask}
use emuriscv.Machine.{State, read_csr, write_csr, priv_m, priv_s}
use emuriscv.Cpu.Exception.{raise_exception, trap_to_m, trap_to_s, clear_pending, delegates_to_s}
use emuriscv.Cpu.Exception.{csr_mtvec, csr_mepc, csr_mcause, csr_mtval}
use emuriscv.Cpu.Exception.{csr_stvec, csr_sepc, csr_scause, csr_stval, csr_medeleg}

-- Whether `raise_exception` takes the trap in supervisor mode.
abbrev pub is_delegated : State → ℕ → Bool
is_delegated s cause = leb s.privilege priv_s && delegates_to_s s cause

-- What a trap handler of one mode finds: the registers of the program, the address of the
-- instruction that trapped (`pc` was incremented before), the cause and the value, and `pc` at the
-- handler.
pub record IsTrap (s after : State) (cause tval mode epc ecause etval tvec : ℕ) : Type 0 where
  pub registers : after.x ≡ s.x
  pub memory : after.memory_map ≡ s.memory_map
  pub at_handler : after.pc ≡ read_csr s tvec
  pub privilege : after.privilege ≡ mode
  pub return_address : read_csr after epc ≡ sub32 s.pc 4
  pub cause_register : read_csr after ecause ≡ cause
  pub value_register : read_csr after etval ≡ tval
  pub nothing_pending : after.has_pending_exception ≡ false
  pub no_cause_pending : after.pending_exception ≡ 0

pub raise_exception_to_m :
    (s : State) (cause tval : ℕ)
    → is_delegated s cause ≡ false
    → raise_exception s cause tval ≡ clear_pending (trap_to_m s cause tval)
unfolding raise_exception
raise_exception_to_m s cause tval h = rw h refl

pub raise_exception_to_s :
    (s : State) (cause tval : ℕ)
    → is_delegated s cause ≡ true
    → raise_exception s cause tval ≡ clear_pending (trap_to_s s cause tval)
unfolding raise_exception
raise_exception_to_s s cause tval h = rw h refl

trap_to_m-IsTrap :
    (s : State) (cause tval : ℕ)
    → IsTrap s
        (clear_pending (trap_to_m s cause tval))
        cause
        tval
        priv_m
        csr_mepc
        csr_mcause
        csr_mtval
        csr_mtvec
unfolding clear_pending trap_to_m write_csr read_csr
trap_to_m-IsTrap s cause tval = record {
  registers = refl;
  memory = refl;
  at_handler = refl;
  privilege = refl;
  return_address = refl;
  cause_register = refl;
  value_register = refl;
  nothing_pending = refl;
  no_cause_pending = refl;
}

trap_to_s-IsTrap :
    (s : State) (cause tval : ℕ)
    → IsTrap s
        (clear_pending (trap_to_s s cause tval))
        cause
        tval
        priv_s
        csr_sepc
        csr_scause
        csr_stval
        csr_stvec
unfolding clear_pending trap_to_s write_csr read_csr
trap_to_s-IsTrap s cause tval = record {
  registers = refl;
  memory = refl;
  at_handler = refl;
  privilege = refl;
  return_address = refl;
  cause_register = refl;
  value_register = refl;
  nothing_pending = refl;
  no_cause_pending = refl;
}

exception_bit : (cause : ℕ) → cause < 32 → bit_and cause (2 ^ 31) ≡ 0
exception_bit cause h =
    ground (arith, bit_and-fields 31 0 1 cause 0 (omega arith) (omega arith), bit_and-zero cause)

-- For an exception, delegation is the bit of `medeleg` at the number of the cause.
delegates_to_s-exception :
    (s : State) (cause : ℕ)
    → cause < 32
    → delegates_to_s s cause ≡ not (read_csr s csr_medeleg / 2 ^ cause % 2 == 0)
unfolding delegates_to_s
delegates_to_s-exception s cause h =
    rw
      (
        exception_bit cause h,
        lt→ltb cause 32 h,
        bit_and_mask 1 (read_csr s csr_medeleg / 2 ^ cause),
      )
      refl

pub delegated :
    (s : State) (cause : ℕ)
    → cause < 32
    → s.privilege ≤ 1
    → read_csr s csr_medeleg / 2 ^ cause % 2 ≡ 1
    → is_delegated s cause ≡ true
delegated s cause h below set = rw (delegates_to_s-exception s cause h, set) (ground arith)

pub not_delegated :
    (s : State) (cause : ℕ)
    → cause < 32
    → (1 < s.privilege) ⊎ (read_csr s csr_medeleg / 2 ^ cause % 2 ≡ 0)
    → is_delegated s cause ≡ false
not_delegated s cause h why = rw (delegates_to_s-exception s cause h) (ground arith)

-- An exception at user or supervisor privilege whose bit in `medeleg` is set is taken in supervisor
-- mode: `pc` is at `stvec`, the address of the instruction, the cause and the value are in their
-- CSRs, nothing is pending, and the registers and the memory are as they were.
pub raise_exception-delegated :
    (s : State) (cause tval : ℕ)
    → cause < 32
    → s.privilege ≤ 1
    → read_csr s csr_medeleg / 2 ^ cause % 2 ≡ 1
    → IsTrap s
        (raise_exception s cause tval)
        cause
        tval
        priv_s
        csr_sepc
        csr_scause
        csr_stval
        csr_stvec
raise_exception-delegated s cause tval h below set =
    rw (raise_exception_to_s s cause tval (delegated s cause h below set))
      (trap_to_s-IsTrap s cause tval)

-- An exception above supervisor privilege, or whose bit in `medeleg` is clear, is taken in machine
-- mode: `pc` is at `mtvec`, the address of the instruction, the cause and the value are in their
-- CSRs, nothing is pending, and the registers and the memory are as they were.
pub raise_exception-machine :
    (s : State) (cause tval : ℕ)
    → cause < 32
    → (1 < s.privilege) ⊎ (read_csr s csr_medeleg / 2 ^ cause % 2 ≡ 0)
    → IsTrap s
        (raise_exception s cause tval)
        cause
        tval
        priv_m
        csr_mepc
        csr_mcause
        csr_mtval
        csr_mtvec
raise_exception-machine s cause tval h why =
    rw (raise_exception_to_m s cause tval (not_delegated s cause h why))
      (trap_to_m-IsTrap s cause tval)
