-- ===== src/Monitor/Strings.antt =====
-- The commands of monitor.c that follow a string or the history of `pc`.
use emuriscv.Base.{
  ℕ, zero, suc, ◌+◌, ◌/◌, ◌%◌, ◌^◌, ◌==◌, ◌||◌, Bool, false, if◌then◌else◌, add32, List, [], ◌∷◌,
  ◌++◌, Option, none, some, Outcome, ok, ◌>>=◌,
}
use emuriscv.Fdt.Text.{c_string}
use emuriscv.Machine.{State}
use emuriscv.Cpu.Step.{pc_history_depth}
use emuriscv.Memory.Translate.{get_memory_target, load, found, faulted, no_range}
use emuriscv.Memory.Access.{read_word}
use emuriscv.Disassembler.{disassemble_op}
use emuriscv.Disassembler.Print.{Line}
use emuriscv.Monitor.{word_size}

-- `bytes`, without its last byte, which is 0.
unfoldable pub data_bytes : ℕ → List ℕ
data_bytes data' =
    data' % 2 ^ 8
    ∷ (data' / 2 ^ 8) % 2 ^ 8
    ∷ (data' / 2 ^ 16) % 2 ^ 8
    ∷ (data' / 2 ^ 24) % 2 ^ 8
    ∷ []

unfoldable pub has_nul : List ℕ → Bool
has_nul [] = false
has_nul (b ∷ bytes) = b == 0 || has_nul bytes

-- What is printed, and whether the string ends in the word.
unfoldable pub dump_data_as_string_check_terminated : ℕ → List ℕ × Bool
unfolding data_bytes has_nul
dump_data_as_string_check_terminated data' =
    (c_string (data_bytes data'), has_nul (data_bytes data'))

-- The first argument is fuel: no state where it was too little. The text is what is printed after
-- the address.
unfoldable pub dump_string_virtual : ℕ → State → ℕ → Outcome (Option State × List ℕ)
unfolding dump_data_as_string_check_terminated
dump_string_virtual zero state address = ok (none, [])
dump_string_virtual (suc fuel) state address =
    get_memory_target state address load >>= λ (translated, status).
    let shown = read_word translated address >>= λ (state', data').
    let (text, terminated) = dump_data_as_string_check_terminated data' in
    let rest = dump_string_virtual fuel state' (add32 address word_size) >>= λ (final, more).
    ok (final, text ++ more) in
    if terminated then ok (some state', text) else rest in
    elim status [
      | found target ↦ shown
      | faulted ↦ ok (some translated, [])
      | no_range ↦ ok (some translated, [])
    ]

-- The rounds left, and the index; the failure of the translation is only reported.
unfoldable pub backtrace_from : ℕ → ℕ → State → Outcome (State × List Line)
backtrace_from zero i state = ok (state, [])
backtrace_from (suc left) i state =
    let address = state.pc_history i in
    get_memory_target state address load >>= λ (translated, status).
    read_word translated address >>= λ (state', data').
    backtrace_from left (i + 1) state' >>= λ (final, lines).
    ok (final, disassemble_op data' address ∷ lines)

unfoldable pub dump_backtrace : State → Outcome (State × List Line)
unfolding backtrace_from
dump_backtrace state = backtrace_from pc_history_depth 0 state
