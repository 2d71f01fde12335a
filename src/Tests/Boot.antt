-- ===== src/Tests/Boot.antt =====
-- The machine as `run_linux` sets it up, and its first instructions.
use emuriscv.Base.{
  ◌≤◌, IsWord, Holds-ok, ℕ, ◌≡◌, ◌%◌, update, refl, arith, true, ok, ◌==◌, if◌then◌else◌,
}
use emuriscv.Machine.{State}
use emuriscv.Memory.Map.{MemoryMap, get_phys_mem_range}
use emuriscv.Boot.{initialize_riscv_machine, run_linux}
use emuriscv.Machine.Valid.{IsValid, IsQuadword, KeepsValid}
use emuriscv.Memory.Map.Bytes.{IsByte}
use emuriscv.Memory.Map.{in_range}
use emuriscv.Memory.Ram.{read_word_ram, load_byte, load_from}
use emuriscv.Memory.Translate.{get_memory_target, translate_address, get_memory_target_physical}
use emuriscv.Decode.{get_rd}
use emuriscv.Cpu.Alu.{addi}
use emuriscv.Cpu.Opcode.{matches}
use emuriscv.Cpu.Dispatch.{dispatch, execute}
use emuriscv.Machine.{write_csr, set_rd_value}
use emuriscv.Cpu.Step.{emulate_op, shift_history, csr_time, csr_cycle}
use emuriscv.Boot.Ranges.{address_map, initialize_riscv_machine_lem}
use emuriscv.Tests.Machines.{quiet, machine, zeros}

initialize_riscv_machine_lem_example :
    (map : MemoryMap) × (initialize_riscv_machine (λ size. true) ≡ ok map)
    × (get_phys_mem_range map 0x2004000 ≡ address_map 0x2004000)
initialize_riscv_machine_lem_example =
    initialize_riscv_machine_lem (λ size. true) 0x2004000 refl refl

-- Memory full of `addi x0, x0, 0`.
abbrev pub nops : ℕ → ℕ
nops i = if i % 4 == 0 then 0x13 else 0

abbrev one_nop_later : State
one_nop_later = record (machine nops) {
  pc = 0x80000008;
  csr = update (update zeros csr_time 1) csr_cycle 1;
  instruction_counter = 1;
  pc_history = update (shift_history 7 0 zeros) 7 0x80000008;
  vm = record ((machine nops).vm) { cycles = 1 };
}

one_nop : run_linux 1 quiet (machine nops) ≡ ok one_nop_later
unfolding run_linux emulate_op get_memory_target translate_address get_memory_target_physical
    get_phys_mem_range in_range read_word_ram load_byte load_from dispatch matches execute write_csr
    addi set_rd_value get_rd
one_nop = refl

quiet-KeepsValid : KeepsValid quiet
quiet-KeepsValid = record { reset = λ mask s h. h; trace = λ s h. Holds-ok s h }

zero-IsWord : IsWord 0
zero-IsWord = omega arith

zero-IsQuadword : IsQuadword 0
zero-IsQuadword = omega arith

machine_level : 3 ≤ 3
machine_level = omega arith

nop-IsByte : (i : ℕ) → IsByte (nops i)
nop-IsByte i = ground arith

nop_pc-IsWord : IsWord 0x80000004
nop_pc-IsWord = omega arith

pub nop_machine-IsValid : IsValid (machine nops)
nop_machine-IsValid = record {
  zero_register = refl;
  registers = λ i. zero-IsWord;
  csrs = λ i. zero-IsWord;
  history = λ i. zero-IsWord;
  uart = λ i. zero-IsWord;
  program_counter = nop_pc-IsWord;
  counter = zero-IsWord;
  pending_cause = zero-IsWord;
  pending_value = zero-IsWord;
  reservation = zero-IsWord;
  privilege_fits = machine_level;
  bytes = (tt, (nop-IsByte, tt));
  tohost = zero-IsQuadword;
  fromhost = zero-IsQuadword;
  compare_time = zero-IsQuadword;
  cycles = zero-IsQuadword;
}
