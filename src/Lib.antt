-- ===== src/Lib.antt =====
-- A model of emuriscv, an emulator of a 32-bit RISC-V machine that boots Linux.
--
-- The program. `emulate_op` (cpu.c) runs one instruction: it translates `pc` (memory.c), loads the
-- word from the memory map (memory_map.c), compares it with the masks of opcodes.h one by one, and
-- calls the handler of the first that matches (cpu.c, cpu_m.c, cpu_a.c, cpu_csr.c, cpu_prv.c,
-- cpu_ecall.c, cpu_ebreak.c). A handler reads and writes the registers and CSRs of `State`, and the
-- memory through memory.c, which calls a device (clint.c and run_linux.c) where the address lies in
-- its range. A page fault is left pending in the state and raised after the handler
-- (cpu_exception.c).
--
-- The files.
--   Base         shared names, C arithmetic on words, signed numbers, arrays, outcomes of calls
--   Bits         laws of `&` and `|`, by binary digits
--   Decode       decode.c, instruction.h, the macros of cpu.h; the formats of the manual
--   Machine      state.h, vm.h, csr.c, csr.h and the register accessors of cpu.c
--   Memory       Map: memory_map.c, memory_map.h and `get_phys_mem_range` of run_linux.c; Ram, Translate
--                and Access: memory.c and memory.h
--                (Translate/Walk is its page walk as a relation, Translate/Sv32 that of the
--                architecture)
--   Device       Clint: clint.c; Htif and Uart: run_linux.c
--   Cpu          Alu, Branch, LoadStore, Dispatch and Step: cpu.c; Opcode: opcodes.h; Mul: cpu_m.c;
--                Atomic: cpu_a.c; Csr: cpu_csr.c; Exception: cpu_exception.c, cpu_ecall.c and
--                cpu_ebreak.c; Privileged: cpu_prv.c
--   Boot         run_linux.c: the set-up of the machine, the boot code and the loop; Load: the loading
--                of the images, with `read_bin` of support_io.c; Start: `run_linux` up to its loop
--   Fdt          fdt.c: State writes the structure block and the strings, Output the whole block, and
--                Build the tree of the machine; Format is a reader of the format
--   Disassembler disassembler/disassembler.c: Print, Alu, Flow and Extensions are the handlers, and the
--                root the chain of tests
--   Monitor      monitor.c: the look-up of registers and the walks over the memory; Input: how a line is
--                read; Commands: `run_monitor_loop` and `run_monitor`; Trace: the part of `ecall` of
--                cpu_ecall.c for user mode, which runs the monitor
--   StateFile    loadsave.c: the state and the RAM in a file
--   Symbols      debug_symbols.h, debug_symbols.c, and `add_symbol` and `get_symbol` of run_linux.c
--   Syscalls     debug_syscalls.h and linux_syscalls.h
--   Tests        the machines that the theorems are tried on
--
-- The state. A `uint32_t` is a natural number below 2 ^ 32, and every operation that can leave that
-- range has its wrap-around written out. The arrays of registers and CSRs are functions, since their
-- index is in range by construction. A pointer into a range is the index of the range and an offset.
-- The virtual machine behind the `opaque` pointer of a device is a field of the state, and so are
-- the globals of the UART with the characters written to `stderr`. A call comes to `ok` with a value,
-- to `exit` with the code of the process, to `undefined` where C leaves the access undefined, or to
-- `unfinished` where the fuel of a loop was too little.
--
-- Loops. The walk of the page tables is a recursion on the levels left, which are two at the
-- start, the search of a range one on the list of ranges, and the shift of the history of `pc` one
-- on its seven rounds; the search of a symbol is one on the list of symbols. The loop of `run_linux`
-- has no end, so the model has the state after a given number of rounds. The walks of the monitor
-- are on fuel, with `none` where it was too little; more fuel than words is enough where a walk ends
-- at all, and the rounds of the monitor are counted, one for a byte of the input being enough. Three
-- loops of fdt.c are on fuel: the search of a name has as much as the string table has
-- bytes, each round going at least one byte on; the alignment to 8 bytes has 7 rounds; the digits of
-- an `uint64_t` are at most 16.
--
-- The build is that of config.h: Linux, the extensions A, M and Zicsr, the update of the accessed
-- and dirty flags, no tests and no debug output.
--
-- Calls from user mode. `ecall` stops there to show a file name or to run the monitor, whose `step`
-- runs `emulate_op` and so `ecall` again. The handlers take that part as the field `trace_ecall` of
-- `Environment`, and `tracing` in Monitor/Trace.antt is the environment with the code of cpu_ecall.c in
-- it, for a depth of monitors within monitors; `unfinished` says that the depth, the rounds or the fuel
-- were too little. What is typed, the files and the symbols at a call are a function of the state.
--
-- Not modelled. `reset_mip`, which clint.c calls and no file defines, is a parameter (`Environment`).
-- Messages printed by the code and the waits for a key are left out.
-- The word of an instruction is loaded once, at the dispatch; the source loads it again through the
-- pointer after the instruction's own stores, which differs only where an instruction overwrites
-- itself. A shift by a negative bit-field, which C leaves undefined, takes the low five bits of the
-- count, as the host's instruction does. In fdt.c, `malloc` and `realloc` are taken to succeed, the
-- lengths are far below the range of an `int`, and the copy of the block in a file is left out. The
-- bytes of the files that are loaded are arguments. The test runner is not modelled, and neither is
-- the layout of what the monitor prints. A line of the disassembler is the format and the values
-- given to `vprintf`, with registers and CSRs by number. In the monitor `unsigned long` has 32 bits,
-- as on the host of crtdbg.h, and a number that is no `int` is undefined for `atoi`.
pub mod Base
pub mod Bits
pub mod Decode
pub mod Memory
pub mod Machine
pub mod Device
pub mod Cpu
pub mod Symbols
pub mod Boot
pub mod Fdt
pub mod Disassembler
pub mod Monitor
pub mod StateFile
pub mod Syscalls
pub mod Tests
