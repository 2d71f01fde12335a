-- ===== src/Boot/Valid.antt =====
-- The machine starts well-formed and stays so.
use emuriscv.Base.{
  ◌≤◌, ℕ, zero, suc, ◌+◌, ◌^◌, arith, IsWord, Bool, true, false, if◌then◌else◌, [], ◌∷◌, ◌++◌,
}
use emuriscv.Base.{Holds, Holds-ok, Holds-exit, Holds-undefined, Holds-if, Holds-bind}
use emuriscv.Machine.{State, Environment}
use emuriscv.Machine.Valid.{IsValid, IsQuadword, KeepsValid, update-IsWord}
use emuriscv.Memory.Map.{
  MemoryMap, MemoryRange, Backing, unallocated, ram, Device, cpu_register_ram, cpu_register_device,
  phys_mem_map_init, register_ram_entry,
}
use emuriscv.Memory.Map.Bytes.{IsByteMap, HasBytes}
use emuriscv.Memory.Ram.{MemoryTarget}
use emuriscv.Memory.Valid.Ram.{write_case_word-IsByteMap}
use emuriscv.Cpu.Valid.Step.{emulate_op-IsValid}
use emuriscv.Monitor.Trace.{Limits, Sitting, tracing}
use emuriscv.Monitor.Valid.Sessions.{SittingIsValid, tracing-KeepsValid}
use emuriscv.Boot.{
  initialize_riscv_machine, initialize_state_linux, write_bootloader, linux_step, run_linux,
}

append-IsByteMap :
    (map : MemoryMap) (range : MemoryRange)
    → IsByteMap map
    → HasBytes range.backing
    → IsByteMap (map ++ (range ∷ []))
append-IsByteMap [] range h k = (k, tt)
append-IsByteMap (r ∷ map) range (here, rest) k = (here, append-IsByteMap map range rest k)

cleared-HasBytes : (b : Bool) → HasBytes (if b then ram (λ _. 0) else unallocated)
cleared-HasBytes true = λ i. omega arith
cleared-HasBytes false = tt

register_ram_entry-IsByteMap :
    (map : MemoryMap) (base size : ℕ) (backing : Backing)
    → IsByteMap map
    → HasBytes backing
    → Holds IsByteMap (register_ram_entry map base size backing)
unfolding register_ram_entry
register_ram_entry-IsByteMap map base size backing h k =
    Holds-if _ _ _ (Holds-exit _) (Holds-ok _ (append-IsByteMap map _ h k))

cpu_register_ram-IsByteMap :
    (malloc : ℕ → Bool) (map : MemoryMap) (base size : ℕ)
    → IsByteMap map
    → Holds IsByteMap (cpu_register_ram malloc map base size)
unfolding cpu_register_ram
cpu_register_ram-IsByteMap malloc map base size h =
    Holds-bind _ _ (register_ram_entry-IsByteMap map base size _ h (cleared-HasBytes (malloc size)))
      (λ registered k. Holds-if (malloc size) _ _ (Holds-ok registered k) (Holds-exit _))

cpu_register_device-IsByteMap :
    (map : MemoryMap) (base size : ℕ) (d : Device)
    → IsByteMap map
    → Holds IsByteMap (cpu_register_device map base size d)
unfolding cpu_register_device
cpu_register_device-IsByteMap map base size d h =
    Holds-if _ _ _ (Holds-ok _ (append-IsByteMap map _ h tt)) Holds-undefined

initialize_riscv_machine-IsByteMap :
    (malloc : ℕ → Bool) → Holds IsByteMap (initialize_riscv_machine malloc)
unfolding initialize_riscv_machine phys_mem_map_init
initialize_riscv_machine-IsByteMap malloc =
    Holds-bind _ _ (cpu_register_ram-IsByteMap malloc [] _ _ tt) (λ m0 h0.
      Holds-bind _ _ (cpu_register_ram-IsByteMap malloc m0 _ _ h0) (λ m1 h1.
        Holds-bind _ _ (cpu_register_device-IsByteMap m1 _ _ _ h1) (λ m2 h2.
          Holds-bind _ _ (cpu_register_device-IsByteMap m2 _ _ _ h2)
            (λ m3 h3. cpu_register_device-IsByteMap m3 _ _ _ h3))))

write_bootloader-IsByteMap :
    (map : MemoryMap) (target : MemoryTarget) (fdt_addr : ℕ)
    → IsByteMap map
    → Holds IsByteMap (write_bootloader map target fdt_addr)
unfolding write_bootloader
write_bootloader-IsByteMap map target fdt_addr h =
    Holds-bind _ _ (write_case_word-IsByteMap map _ _ h) (λ m0 h0.
      Holds-bind _ _ (write_case_word-IsByteMap m0 _ _ h0) (λ m1 h1.
        Holds-bind _ _ (write_case_word-IsByteMap m1 _ _ h1) (λ m2 h2.
          Holds-bind _ _ (write_case_word-IsByteMap m2 _ _ h2)
            (λ m3 h3. write_case_word-IsByteMap m3 _ _ h3))))

zero-IsWord : IsWord 0
zero-IsWord = omega arith

zero-IsQuadword : IsQuadword 0
zero-IsQuadword = omega arith

machine_level : 3 ≤ 3
machine_level = omega arith

misa-IsWord : IsWord (2 ^ 0 + 2 ^ 8 + 2 ^ 12 + 2 ^ 18 + 2 ^ 30)
misa-IsWord = omega arith

initialize_state_linux-IsValid :
    (map : MemoryMap) → IsByteMap map → IsValid (initialize_state_linux map)
unfolding initialize_state_linux
initialize_state_linux-IsValid map h =
    search (update-IsWord, zero-IsWord, zero-IsQuadword, misa-IsWord, machine_level)

-- The memory map that `initialize_riscv_machine` comes to, with or without the boot code that
-- `write_bootloader` puts into it, starts the machine in a well-formed state.
pub initialize_riscv_machine-IsValid :
    (malloc : ℕ → Bool) (target : MemoryTarget) (fdt_addr : ℕ)
    → Holds
        (λ map.
          IsValid (initialize_state_linux map)
          × Holds
              (λ map'. IsValid (initialize_state_linux map'))
              (write_bootloader map target fdt_addr))
        (initialize_riscv_machine malloc)
initialize_riscv_machine-IsValid malloc target fdt_addr = record {
  at = λ map e.
      let h = (initialize_riscv_machine-IsByteMap malloc).at map e in
      (
        initialize_state_linux-IsValid map h,
        record {
          at = λ map' e'.
              initialize_state_linux-IsValid map'
                ((write_bootloader-IsByteMap map target fdt_addr h).at map' e');
        },
      );
}

clock-IsValid :
    (s : State) (n : ℕ)
    → IsValid s
    → IsQuadword n
    → IsValid (record s { vm = record (s.vm) { cycles = n } })
clock-IsValid s n h fits = search

linux_step-IsValid :
    (env : Environment) (s : State) → KeepsValid env → IsValid s → Holds IsValid (linux_step env s)
unfolding linux_step
linux_step-IsValid env s keeps h =
    Holds-bind _ _ (emulate_op-IsValid env s keeps h)
      (λ t k. Holds-ok _ (clock-IsValid t t.instruction_counter k (quadword k.counter)))
  where
    quadword : {n : ℕ} → IsWord n → IsQuadword n
    quadword fits = omega arith

-- From a well-formed state, every state that the loop of `run_linux` reaches is well-formed, after
-- any number of rounds: every register, CSR, device register and RAM byte has the width of its
-- type, x0 is zero and the privilege is at most 3. The environment must keep such states well-formed.
pub run_linux-IsValid :
    (rounds : ℕ) (env : Environment) (s : State)
    → KeepsValid env
    → IsValid s
    → Holds IsValid (run_linux rounds env s)
unfolding run_linux
run_linux-IsValid zero env s keeps h = Holds-ok s h
run_linux-IsValid (suc rounds) env s keeps h =
    Holds-bind _ _ (linux_step-IsValid env s keeps h)
      (λ t k. run_linux-IsValid rounds env t keeps k)

-- From a well-formed state, every state that the loop of `run_linux` reaches is well-formed, after
-- any number of rounds and with the monitor open in calls from user mode, whatever is typed there,
-- its `step`, `save` and `load` included: every register, CSR, device register and RAM byte has the
-- width of its type, x0 is zero and the privilege is at most 3. `reset_mip` must keep states
-- well-formed, and the files there at a call must hold bytes, with a zero for x0 and a privilege of at
-- most 3.
pub run_linux-tracing-IsValid :
    (rounds depth : ℕ) (limits : Limits) (reset : ℕ → State → State) (sitting : State → Sitting)
    (s : State)
    → ((mask : ℕ) (t : State) → IsValid t → IsValid (reset mask t))
    → ((t : State) → SittingIsValid (sitting t))
    → IsValid s
    → Holds IsValid (run_linux rounds (tracing depth limits reset sitting) s)
run_linux-tracing-IsValid rounds depth limits reset sitting s keeps files h =
    run_linux-IsValid rounds (tracing depth limits reset sitting) s
      (tracing-KeepsValid depth limits reset sitting keeps files) h
