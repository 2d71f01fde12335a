-- ===== src/Cpu/Privileged.antt =====
-- cpu_prv.c: returns from traps, the fence of the page tables, and `wfi`.
pub mod Returns
use emuriscv.Base.{ℕ, ◌==◌, if◌then◌else◌, Outcome, ok, exit}
use emuriscv.Machine.{State, read_csr, write_csr, priv_m, priv_s, priv_u}
use emuriscv.Cpu.Exception.{get_field, set_field, csr_mepc, csr_sepc, csr_uepc, csr_mstatus}
use emuriscv.Cpu.Exception.{mstatus_mpp, mstatus_mie, mstatus_mpie, mstatus_tsr, mstatus_spp}
use emuriscv.Cpu.Exception.{mstatus_sie, mstatus_spie}

abbrev pub exit_illegal_mret : ℕ
exit_illegal_mret = 0x3

abbrev pub exit_illegal_sret : ℕ
exit_illegal_sret = 0x4

abbrev pub exit_wfi : ℕ
exit_wfi = 0x5

-- What `mret` and `sret` make of `mstatus`.
unfoldable pub pop_mstatus_m : ℕ → ℕ
pop_mstatus_m s0 =
    let s1 = set_field s0 mstatus_mie (get_field s0 mstatus_mpie) in
    let s2 = set_field s1 mstatus_mpie 1 in set_field s2 mstatus_mpp priv_u

unfoldable pub pop_mstatus_s : ℕ → ℕ
pop_mstatus_s s0 =
    let s1 = set_field s0 mstatus_sie (get_field s0 mstatus_spie) in
    let s2 = set_field s1 mstatus_spie 1 in set_field s2 mstatus_spp priv_u

unfoldable pub return_from_m : State → State
unfolding pop_mstatus_m
return_from_m state =
    let s = read_csr state csr_mstatus in
    write_csr (record state { pc = read_csr state csr_mepc; privilege = get_field s mstatus_mpp })
      csr_mstatus (pop_mstatus_m s)

unfoldable pub mret : State → ℕ → Outcome State
unfolding return_from_m
mret state instruction =
    if state.privilege == priv_m then ok (return_from_m state) else exit exit_illegal_mret

unfoldable pub return_from_s : State → State
unfolding pop_mstatus_s
return_from_s state =
    let s = read_csr state csr_mstatus in
    write_csr (record state { pc = read_csr state csr_sepc; privilege = get_field s mstatus_spp })
      csr_mstatus (pop_mstatus_s s)

-- PRIV_M where mstatus.TSR is set, else PRIV_S.
unfoldable pub sret_privilege : State → ℕ
sret_privilege state =
    if get_field (read_csr state csr_mstatus) mstatus_tsr == 0 then priv_s else priv_m

unfoldable pub sret : State → ℕ → Outcome State
unfolding return_from_s sret_privilege
sret state instruction =
    if state.privilege == sret_privilege state
    then ok (return_from_s state)
    else exit exit_illegal_sret

unfoldable pub uret : State → ℕ → State
uret state instruction = record state { pc = read_csr state csr_uepc }

unfoldable pub sfence_vma : State → ℕ → State
sfence_vma state instruction = state

unfoldable pub wfi : State → ℕ → Outcome State
wfi state instruction = exit exit_wfi
