-- ===== src/Monitor/Trace.antt =====
-- The part of `ecall` of cpu_ecall.c for user mode, in the build that traces calls. The line that it
-- prints and the wait for a key at its end, which change no state, are left out.
use emuriscv.Base.{
  ℕ, zero, suc, ◌==◌, ◌||◌, if◌then◌else◌, List, Option, none, some, Outcome, ok, unfinished, ◌>>=◌,
}
use emuriscv.Machine.{State, Environment}
use emuriscv.Symbols.{Symbol}
use emuriscv.Monitor.Strings.{dump_string_virtual}
use emuriscv.Monitor.Commands.{Host, Ending, left, walking, out_of_rounds, run_monitor}

-- What the host has when a call in user mode stops the machine: the symbols, the files, the words of
-- the object of a state that are not its fields, and what is typed until the monitor is left.
pub record Sitting : Type 0 where
  pub symbol_list : List Symbol
  pub files : List ℕ → Option (List ℕ)
  pub filler : ℕ → ℕ
  pub typed : List ℕ

-- The fuel of the walks over the memory, and the rounds of the monitor.
pub record Limits : Type 0 where
  pub fuel : ℕ
  pub rounds : ℕ

unfoldable pub after_walk : Option State → Outcome State
after_walk none = unfinished
after_walk (some state) = ok state

unfoldable pub after_monitor : Ending → Outcome State
after_monitor (left state host) = ok state
after_monitor walking = unfinished
after_monitor out_of_rounds = unfinished

abbrev pub host_of : Environment → Sitting → Host
host_of env sitting = record {
  env = env;
  symbol_list = sitting.symbol_list;
  files = sitting.files;
  filler = sitting.filler;
}

-- a7, the number of the call, and a1.
abbrev pub reg_a7 : ℕ
reg_a7 = 17

abbrev pub reg_a1 : ℕ
reg_a1 = 11

-- The calls with a file name in a1, and the two that stop in the monitor.
unfoldable pub trace_user_ecall : Limits → Environment → Sitting → State → Outcome State
unfolding after_walk after_monitor
trace_user_ecall limits env sitting state =
    let nr = state.x reg_a7 in
    if nr == 56 || nr == 48 || nr == 291 || nr == 78
    then (dump_string_virtual limits.fuel state (state.x reg_a1) >>= λ (final, text).
        after_walk final)
    else if nr == 422 || nr == 98
    then (run_monitor limits.rounds limits.fuel (host_of env sitting) state sitting.typed
        >>= λ ending. after_monitor ending)
    else ok state

-- The environment of a machine whose monitors, each of them opened by a `step` of the one before, are
-- nested no deeper than the first argument.
unfoldable pub tracing : ℕ → Limits → (ℕ → State → State) → (State → Sitting) → Environment
unfolding trace_user_ecall
tracing zero limits reset sitting = record { reset_mip = reset; trace_ecall = λ state. unfinished }
tracing (suc depth) limits reset sitting = record {
  reset_mip = reset;
  trace_ecall =
      λ state. trace_user_ecall limits (tracing depth limits reset sitting) (sitting state) state;
}
