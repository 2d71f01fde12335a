-- ===== src/Tests/Registers.antt =====
-- The CSR instructions, the branches, the store conditional, the devices and the counters.
use emuriscv.Base.{
  ℕ, ◌≡◌, inl, refl, arith, ok, exit, add32, not, ◌==◌, ltb, leb, update, if◌then◌else◌, ◌∷◌,
  to_signed, ltℤ, geℤ,
}
use emuriscv.Decode.{get_rd, get_i_imm_unsigned, get_rs1, get_rs2}
use emuriscv.Decode.Encode.{Operands, IsOperands, i_type, b_type, j_type}
use emuriscv.Machine.{State, read_csr, get_reg, get_rs1_value, get_rs2_value, set_rd_value}
use emuriscv.Memory.Map.{MemoryMap, get_phys_mem_range, in_range}
use emuriscv.Memory.Translate.{get_memory_target_physical}
use emuriscv.Memory.Access.{read_word}
use emuriscv.Cpu.Csr.{csrrw, csrrs, csrrc}
use emuriscv.Cpu.Csr.Laws.{csr_instructions_lem}
use emuriscv.Cpu.Branch.{beq, bne, blt, bge, bltu, bgeu, jal, jalr}
use emuriscv.Cpu.Branch.Targets.{goes_to, branches_lem, jumps_lem}
use emuriscv.Cpu.Atomic.{sc, no_reservation}
use emuriscv.Cpu.Atomic.Reservation.{sc-stored}
use emuriscv.Cpu.Step.{finish_op, csr_time, csr_cycle}
use emuriscv.Cpu.Step.Counters.{finish_op_lem}
use emuriscv.Device.Clint.{clint_read, clint_write, sifive_timecmp_low, sifive_timecmp_high}
use emuriscv.Device.Clint.Laws.{KeepsDevices, clint_read-clint_write}
use emuriscv.Device.Htif.{htif_read, exit_poweroff}
use emuriscv.Device.Htif.Laws.{send, htif_write-commands}
use emuriscv.Tests.Machines.{quiet, zeros, machine, memory_range}

-- x5 = 0x80000010, x6 = 7, and 0xf0 in the CSR 0x340.
abbrev ready : State
ready = record (machine zeros) {
  x = update (update zeros 5 0x80000010) 6 7;
  csr = update zeros 0x340 0xf0;
  load_reservation = 0x80000010;
}

-- csrrw x7, 0x340, x6
abbrev swap : ℕ
swap = 0x340313f3

csr_instructions_lem_example :
    (get_reg (csrrw ready swap) 7 ≡ 0xf0)
    × (read_csr (csrrw ready swap) 0x340 ≡ 7)
    × (get_reg (csrrs ready swap) 7 ≡ 0xf0)
    × (read_csr (csrrs ready swap) 0x340 ≡ 0xf7)
    × (get_reg (csrrc ready swap) 7 ≡ 0xf0)
    × (read_csr (csrrc ready swap) 0x340 ≡ 0xf0)
unfolding get_reg read_csr get_i_imm_unsigned get_rs1_value get_rd get_rs1
csr_instructions_lem_example = csr_instructions_lem ready swap 7

abbrev operands : Operands
operands = record { opcode = 0x63; rd = 1; funct3 = 0; rs1 = 5; rs2 = 6 }

operands-IsOperands : IsOperands operands
operands-IsOperands = record {
  opcode_fits = omega arith;
  rd_fits = omega arith;
  funct3_fits = omega arith;
  rs1_fits = omega arith;
  rs2_fits = omega arith;
}

branches_lem_example :
    let w = b_type operands 16 in
    let a = get_reg ready 5 in
    let b = get_reg ready 6 in
    ((beq ready w).pc ≡ goes_to 0x80000000 16 (a == b))
    × ((bne ready w).pc ≡ goes_to 0x80000000 16 (not (a == b)))
    × ((bltu ready w).pc ≡ goes_to 0x80000000 16 (ltb a b))
    × ((bgeu ready w).pc ≡ goes_to 0x80000000 16 (leb b a))
    × ((blt ready w).pc ≡ goes_to 0x80000000 16 (ltℤ (to_signed a) (to_signed b)))
    × ((bge ready w).pc ≡ goes_to 0x80000000 16 (geℤ (to_signed a) (to_signed b)))
branches_lem_example =
    branches_lem ready operands 0x80000000 16 operands-IsOperands (inl (omega arith)) refl refl

jumps_lem_example :
    let link = if 1 == 0 then ready.x 1 else if 1 == 1 then add32 0x80000000 4 else ready.x 1 in
    ((jal ready (j_type operands 16)).pc ≡ add32 0x80000000 16)
    × (get_reg (jal ready (j_type operands 16)) 1 ≡ link)
    × ((jalr ready (i_type operands 8)).pc ≡ add32 (get_reg ready 5) 8)
    × (get_reg (jalr ready (i_type operands 8)) 1 ≡ link)
jumps_lem_example =
    jumps_lem ready operands 0x80000000 16 8 1 operands-IsOperands (inl (omega arith)) refl
      (inl (omega arith)) refl

-- sc.w x7, x6, (x5)
abbrev conditional : ℕ
conditional = 0x1862a3af

abbrev unreserved : State
unreserved = record ready { load_reservation = 0 }

sc-stored_example :
    (map : MemoryMap) × (sc quiet ready conditional
      ≡ ok (record (set_rd_value (record ready { memory_map = map }) conditional 0) {
        load_reservation = no_reservation;
      }))
    × (read_word (record ready { memory_map = map }) (get_rs1_value ready conditional)
        ≡ ok (record ready { memory_map = map }, get_rs2_value ready conditional))
unfolding get_rs1_value get_rs2_value get_reg get_rs1 get_rs2 get_memory_target_physical
    get_phys_mem_range in_range
sc-stored_example =
    sc-stored quiet ready conditional {target = record { range = 1; offset = 0x10 }}
      {range = memory_range zeros} {bytes = zeros} refl (omega arith) (inl refl) refl
      (record { there = refl; is_ram = refl; inside = omega arith })

quiet-KeepsDevices : KeepsDevices quiet
quiet-KeepsDevices mask s = refl

clint_read-clint_write_example :
    let high = (clint_write quiet ready sifive_timecmp_high 5).vm in
    let low = (clint_write quiet ready sifive_timecmp_low 5).vm in
    (clint_read high sifive_timecmp_high ≡ 5)
    × (clint_read high sifive_timecmp_low ≡ clint_read (ready.vm) sifive_timecmp_low)
    × (clint_read low sifive_timecmp_low ≡ 5)
    × (clint_read low sifive_timecmp_high ≡ 0)
clint_read-clint_write_example =
    clint_read-clint_write quiet ready 5 quiet-KeepsDevices (omega arith)

htif_write-commands_example :
    ((after : State) × (send ready 0x41 0x01010000 ≡ ok after)
      × (after.console.stderr ≡ 0x41 ∷ ready.console.stderr)
      × (htif_read after.vm 0 ≡ 0)
      × (htif_read after.vm 4 ≡ 0))
    × (send ready 1 0 ≡ exit exit_poweroff)
htif_write-commands_example = htif_write-commands ready 0x41 (omega arith)

finish_op_lem_example :
    let after = finish_op ready in
    (after.pc_history 3 ≡ ready.pc_history 4)
    × (after.pc_history 7 ≡ after.pc)
    × (after.instruction_counter ≡ add32 ready.instruction_counter 1)
    × (read_csr after csr_time ≡ after.instruction_counter)
    × (read_csr after csr_cycle ≡ after.instruction_counter)
    × (after.x ≡ ready.x)
finish_op_lem_example = finish_op_lem ready 3 (omega arith)
