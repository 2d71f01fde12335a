-- ===== src/Tests/Traps.antt =====
-- Traps from supervisor mode, with and without delegation.
use emuriscv.Base.{◌*◌, ◌^◌, ◌≡◌, inr, refl, arith, ok, sub32, update, if◌then◌else◌}
use emuriscv.Machine.{State, read_csr, priv_m, priv_s}
use emuriscv.Cpu.Exception.{
  raise_exception, csr_medeleg, csr_mstatus, csr_mepc, csr_mcause, csr_mtval, csr_mtvec,
}
use emuriscv.Cpu.Exception.{csr_sepc, csr_scause, csr_stval, csr_stvec}
use emuriscv.Cpu.Exception.Laws.{IsTrap, is_delegated, raise_exception-machine}
use emuriscv.Cpu.Exception.Supervisor.{IsQuietTrap, raise_exception-supervisor}
use emuriscv.Cpu.Privileged.{mret, sret}
use emuriscv.Cpu.Privileged.Returns.{
  mret-raise_exception, sret-raise_exception, raise_exception-mstatus,
}
use emuriscv.Tests.Machines.{paged}

-- With load page faults delegated.
abbrev delegating : State
delegating = record paged { csr = update paged.csr csr_medeleg 0x2000 }

raise_exception-machine_example :
    IsTrap paged
      (raise_exception paged 13 0xc0001234)
      13
      0xc0001234
      priv_m
      csr_mepc
      csr_mcause
      csr_mtval
      csr_mtvec
unfolding read_csr
raise_exception-machine_example =
    raise_exception-machine paged 13 0xc0001234 (omega arith) (inr refl)

mret-raise_exception_example :
    (after : State) × (mret (raise_exception paged 13 0xc0001234) 0x30200073 ≡ ok after)
    × (after.pc ≡ sub32 paged.pc 4)
    × (after.privilege ≡ paged.privilege)
    × (after.x ≡ paged.x)
    × (after.memory_map ≡ paged.memory_map)
unfolding read_csr
mret-raise_exception_example =
    mret-raise_exception paged 0x30200073 13 0xc0001234 (omega arith) (omega arith) (inr refl)

sret-raise_exception_example :
    (after : State) × (sret (raise_exception delegating 13 0xc0001234) 0x10200073 ≡ ok after)
    × (after.pc ≡ sub32 delegating.pc 4)
    × (after.privilege ≡ delegating.privilege)
    × (after.x ≡ delegating.x)
    × (after.memory_map ≡ delegating.memory_map)
unfolding read_csr
sret-raise_exception_example =
    sret-raise_exception delegating 0x10200073 13 0xc0001234 (omega arith) (omega arith) refl

raise_exception-mstatus_example :
    read_csr (raise_exception paged 13 0xc0001234) csr_mstatus
    ≡ (if is_delegated paged 13 then 1 * 2 ^ 8 else 1 * 2 ^ 11)
raise_exception-mstatus_example = raise_exception-mstatus paged 13 0xc0001234 refl (omega arith)

raise_exception-supervisor_example :
    IsTrap delegating
      (raise_exception delegating 13 0xc0001234)
      13
      0xc0001234
      priv_s
      csr_sepc
      csr_scause
      csr_stval
      csr_stvec
    × IsQuietTrap delegating (raise_exception delegating 13 0xc0001234)
unfolding read_csr
raise_exception-supervisor_example =
    raise_exception-supervisor delegating 13 0xc0001234 (omega arith) (omega arith) refl
