-- ===== src/Cpu/Exception.antt =====
-- cpu_exception.c, cpu_ecall.c and cpu_ebreak.c: taking a trap.
pub mod Fields
pub mod Laws
pub mod Supervisor
use emuriscv.Base.{ℕ, ◌*◌, ◌/◌, ◌^◌, bit_and, bit_or, ◌==◌, ◌&&◌, not, ltb, leb}
use emuriscv.Base.{Bool, false, if◌then◌else◌, not32, shr, shl32, u32, sub32, Outcome, ok, ◌>>=◌}
use emuriscv.Machine.{State, Environment, read_csr, write_csr, status_code, priv_m, priv_s, priv_u}

-- The macros `get_field` and `set_field`. The lowest bit of a mask is `mask & ~(mask << 1)`.
abbrev pub mask_low_bit : ℕ → ℕ
mask_low_bit mask = bit_and mask (not32 (shl32 mask 1))

unfoldable pub get_field : ℕ → ℕ → ℕ
get_field reg mask = bit_and reg mask / mask_low_bit mask

unfoldable pub set_field : ℕ → ℕ → ℕ → ℕ
set_field reg mask val =
    bit_or (bit_and reg (not32 mask)) (bit_and (u32 (val * mask_low_bit mask)) mask)

abbrev pub mstatus_sie : ℕ
mstatus_sie = 0x2

abbrev pub mstatus_mie : ℕ
mstatus_mie = 0x8

abbrev pub mstatus_spie : ℕ
mstatus_spie = 0x20

abbrev pub mstatus_mpie : ℕ
mstatus_mpie = 0x80

abbrev pub mstatus_spp : ℕ
mstatus_spp = 0x100

abbrev pub mstatus_mpp : ℕ
mstatus_mpp = 0x1800

abbrev pub mstatus_tsr : ℕ
mstatus_tsr = 0x400000

abbrev pub csr_mstatus : ℕ
csr_mstatus = 0x300

abbrev pub csr_medeleg : ℕ
csr_medeleg = 0x302

abbrev pub csr_mideleg : ℕ
csr_mideleg = 0x303

abbrev pub csr_mtvec : ℕ
csr_mtvec = 0x305

abbrev pub csr_mepc : ℕ
csr_mepc = 0x341

abbrev pub csr_mcause : ℕ
csr_mcause = 0x342

abbrev pub csr_mtval : ℕ
csr_mtval = 0x343

abbrev pub csr_stvec : ℕ
csr_stvec = 0x105

abbrev pub csr_sepc : ℕ
csr_sepc = 0x141

abbrev pub csr_scause : ℕ
csr_scause = 0x142

abbrev pub csr_stval : ℕ
csr_stval = 0x143

abbrev pub csr_uepc : ℕ
csr_uepc = 0x41

-- The new `mstatus` is made from `state->status`, the run status of the emulator.
unfoldable pub trap_to_s : State → ℕ → ℕ → State
trap_to_s state cause tval =
    let s1 = write_csr state csr_sepc (sub32 state.pc 4) in
    let s2 = write_csr s1 csr_scause cause in
    let s3 = write_csr s2 csr_stval tval in
    let s4 = record s3 { pc = read_csr s3 csr_stvec } in
    let w0 = status_code s4.status in
    let w1 = set_field w0 mstatus_spie (get_field w0 mstatus_sie) in
    let w2 = set_field w1 mstatus_spp s4.privilege in
    let w3 = set_field w2 mstatus_sie 0 in
    record (write_csr s4 csr_mstatus w3) { privilege = priv_s }

unfoldable pub trap_to_m : State → ℕ → ℕ → State
trap_to_m state cause tval =
    let s1 = write_csr state csr_mcause cause in
    let s2 = write_csr s1 csr_mepc (sub32 state.pc 4) in
    let s3 = write_csr s2 csr_mtval tval in
    let s4 = record s3 { pc = read_csr s3 csr_mtvec } in
    let w0 = status_code s4.status in
    let w1 = set_field w0 mstatus_mpie (get_field w0 mstatus_mie) in
    let w2 = set_field w1 mstatus_mpp s4.privilege in
    let w3 = set_field w2 mstatus_mie 0 in
    record (write_csr s4 csr_mstatus w3) { privilege = priv_m }

-- `interrupt`, from the high bit of the cause, and the delegation bit of the cause.
unfoldable pub is_interrupt : ℕ → Bool
is_interrupt cause = not (bit_and cause (2 ^ 31) == 0)

unfoldable pub delegates_to_s : State → ℕ → Bool
unfolding is_interrupt
delegates_to_s state cause =
    let interrupt = is_interrupt cause in
    let deleg = read_csr state (if interrupt then csr_mideleg else csr_medeleg) in
    let bit = if interrupt then bit_and cause (not32 (2 ^ 31)) else cause in
    ltb bit 32 && not (bit_and (shr deleg bit) 1 == 0)

unfoldable pub clear_pending : State → State
clear_pending state = record state {
  pending_exception = 0;
  pending_tval = 0;
  has_pending_exception = false;
}

unfoldable pub raise_exception : State → ℕ → ℕ → State
unfolding clear_pending
raise_exception state cause tval = clear_pending (
    if leb state.privilege priv_s && delegates_to_s state cause
    then trap_to_s state cause tval
    else trap_to_m state cause tval)

-- `CAUSE_` of an `ecall`; at another privilege the pending exception stays what it was.
unfoldable pub ecall_cause : State → ℕ
ecall_cause state =
    if state.privilege == priv_m
    then 0xb
    else if state.privilege == priv_s
    then 0x9
    else if state.privilege == priv_u
    then 0x8
    else state.pending_exception

-- The part for user mode is `trace_user_ecall` of Monitor/Trace.antt, where `tracing` puts it into the
-- environment.
unfoldable pub ecall : Environment → State → ℕ → Outcome State
unfolding ecall_cause
ecall env state instruction =
    (if state.privilege == priv_u then env.trace_ecall state else ok state) >>= λ state'.
    let state'' = record state' { pending_exception = ecall_cause state' } in
    ok (raise_exception state'' state''.pending_exception state''.pending_tval)

-- Outside a debug build there is no body.
unfoldable pub ebreak : State → ℕ → State
ebreak state instruction = state
