-- ===== src/Tests/Sessions.antt =====
-- Calls from user mode that stop in the monitor.
use emuriscv.Base.{
  ℕ, ◌≡◌, ◌≤◌, ◌%◌, ◌==◌, if◌then◌else◌, refl, arith, IsWord, update, none, ok, [], ◌++◌, ◌∷◌,
  Holds,
}
use emuriscv.Fdt.Text.{codes}
use emuriscv.Machine.{State, priv_u}
use emuriscv.Machine.Valid.{IsValid, update-IsWord}
use emuriscv.Memory.Map.Bytes.{IsByte}
use emuriscv.Boot.{run_linux}
use emuriscv.Boot.Valid.{run_linux-tracing-IsValid}
use emuriscv.Monitor.Input.{newline, fgets}
use emuriscv.Monitor.Commands.{run_monitor, run_monitor_loop}
use emuriscv.Monitor.Trace.{Limits, Sitting, tracing, trace_user_ecall, reg_a7}
use emuriscv.Tests.Machines.{machine, zeros, quiet}
use emuriscv.Tests.Boot.{nop_machine-IsValid}

-- Memory full of `ecall`, in user mode, with the number of `futex` in a7.
abbrev ecalls : ℕ → ℕ
ecalls i = if i % 4 == 0 then 0x73 else 0

abbrev calling : State
calling = record (machine ecalls) { privilege = priv_u; x = update zeros reg_a7 98 }

abbrev typing : Sitting
typing = record {
  symbol_list = [];
  files = λ name. none;
  filler = zeros;
  typed = codes "step 1" ++ newline ∷ codes "q" ++ newline ∷ [];
}

abbrev limits : Limits
limits = record { fuel = 100; rounds = 100 }

number-IsWord : IsWord 98
number-IsWord = omega arith

zero-IsWord : IsWord 0
zero-IsWord = omega arith

user_level : 0 ≤ 3
user_level = omega arith

ecall-IsByte : (i : ℕ) → IsByte (ecalls i)
ecall-IsByte i = ground arith

calling-IsValid : IsValid calling
calling-IsValid =
    let h = nop_machine-IsValid in
    record {
      zero_register = refl;
      registers = update-IsWord zeros reg_a7 98 (λ i. zero-IsWord) number-IsWord;
      csrs = h.csrs;
      history = h.history;
      uart = h.uart;
      program_counter = h.program_counter;
      counter = h.counter;
      pending_cause = h.pending_cause;
      pending_value = h.pending_value;
      reservation = h.reservation;
      privilege_fits = user_level;
      bytes = (tt, (ecall-IsByte, tt));
      tohost = h.tohost;
      fromhost = h.fromhost;
      compare_time = h.compare_time;
      cycles = h.cycles;
    }

-- At the end of the input the monitor is left.
monitor_is_left : trace_user_ecall limits quiet (record typing { typed = [] }) calling ≡ ok calling
unfolding trace_user_ecall run_monitor run_monitor_loop fgets
monitor_is_left = refl

run_linux-tracing-IsValid_example :
    Holds IsValid (run_linux 2 (tracing 2 limits (λ mask s. s) (λ s. typing)) calling)
run_linux-tracing-IsValid_example =
    run_linux-tracing-IsValid 2 2 limits (λ mask s. s) (λ s. typing) calling (λ mask s h. h)
      (λ s name. tt) calling-IsValid
