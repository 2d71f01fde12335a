-- ===== src/Monitor/Commands.antt =====
-- `run_monitor_loop` and `run_monitor`: a line of the monitor and the command that it calls.
use Prim.Native.String.{String}
use emuriscv.Base.{
  ℕ, zero, suc, ◌%◌, ◌^◌, Bool, ◌||◌, if◌then◌else◌, List, [], ◌∷◌, get_elem?, Option, none, some,
  Outcome, ok, undefined, ◌>>=◌,
}
use emuriscv.Fdt.Text.{codes, same_text}
use emuriscv.Machine.{State, Environment}
use emuriscv.Cpu.Step.{emulate_op}
use emuriscv.Symbols.{Symbol, get_symbol}
use emuriscv.StateFile.{save, load}
use emuriscv.Disassembler.Print.{Line}
use emuriscv.Monitor.{
  Dump, get_register_value, dump_memory_physical, dump_memory_virtual, disassemble_word,
  write_memory_virtual,
}
use emuriscv.Monitor.Strings.{dump_string_virtual, dump_backtrace}
use emuriscv.Monitor.Input.{fgets, cut_line, tokenize, max_tokens, strtoul_16, atoi}

-- What a command shows, less its layout. `dump_registers` shows the registers of the state.
pub data Shown : Type 0 where
  nothing help registers confirmed : Shown
  register : List ℕ → Shown
  words : Dump → Shown
  text : List ℕ → Shown
  lines : List Line → Shown
  current : Symbol → Shown

-- The files by name, and the words of the object of a state that are not its fields.
pub record Host : Type 0 where
  pub env : Environment
  pub symbol_list : List Symbol
  pub files : List ℕ → Option (List ℕ)
  pub filler : ℕ → ℕ

-- The state after a command, `none` where the fuel of a walk over the memory was too little; the files;
-- and what was shown.
pub record Session : Type 0 where
  pub state : Option State
  pub host : Host
  pub shown : Shown

abbrev pub session : Host → State → Shown → Outcome Session
session host state shown = ok (record { state = some state; host = host; shown = shown })

abbrev pub get_address : List ℕ → ℕ
get_address token = strtoul_16 token

abbrev pub get_value_hex : List ℕ → ℕ
get_value_hex token = strtoul_16 token

-- `atoi` of the third token, which the return type cuts to a `word`; 1 where there is none.
unfoldable pub get_repeat : List (List ℕ) → Outcome ℕ
get_repeat tokens = elim (get_elem? tokens 2) [
  | none ↦ ok 1
  | some token ↦ atoi token >>= λ repeat. ok (repeat % 2 ^ 32)
]

unfoldable pub show_words : Host → Outcome (Option State × Dump) → Outcome Session
show_words host walk =
    walk >>= λ (state, dump). ok (record { state = state; host = host; shown = words dump })

unfoldable pub show_lines : Host → Outcome (Option State × List Line) → Outcome Session
show_lines host walk = walk >>= λ (state, disassembled).
    ok (record { state = state; host = host; shown = lines disassembled })

-- The commands that walk over the memory from an address on, with the number of words.
unfoldable pub dump_virtual : ℕ → Host → State → ℕ → List (List ℕ) → Outcome Session
unfolding get_repeat show_words
dump_virtual fuel host state address tokens =
    get_repeat tokens >>= λ repeat. show_words host (dump_memory_virtual fuel state address repeat)

unfoldable pub dump_physical : ℕ → Host → State → ℕ → ℕ → Outcome Session
dump_physical fuel host state address repeat =
    dump_memory_physical fuel state address repeat >>= λ walk. elim walk [
      | none ↦ ok (record { state = none; host = host; shown = nothing })
      | some dump ↦ session host state (words dump)
    ]

unfoldable pub disassemble : ℕ → Host → State → ℕ → List (List ℕ) → Outcome Session
unfolding get_repeat show_lines
disassemble fuel host state address tokens =
    get_repeat tokens >>= λ repeat. show_lines host (disassemble_word fuel state address repeat)

-- The loop of `step`.
unfoldable pub steps : Environment → ℕ → State → Outcome State
steps env zero state = ok state
steps env (suc repeat) state = emulate_op env state >>= λ state'. steps env repeat state'

unfoldable pub save_command : Host → State → List ℕ → Outcome Session
save_command host state name = save host.filler state >>= λ file.
    session (record host { files = λ n. if same_text n name then some file else host.files n })
      state nothing

unfoldable pub load_command : Host → State → List ℕ → Outcome Session
load_command host state name =
    load host.filler (host.files name) state >>= λ state'. session host state' nothing

unfoldable pub step_command : Host → State → List ℕ → Outcome Session
unfolding steps
step_command host state count =
    atoi count >>= λ repeat. steps host.env repeat state >>= λ state'. session host state' nothing

-- `token_count > 1`; without an argument a command does nothing.
abbrev pub with_arg : List (List ℕ) → Host → State → (List ℕ → Outcome Session) → Outcome Session
with_arg tokens host state command = elim (get_elem? tokens 1) [
  | none ↦ session host state nothing
  | some arg ↦ command arg
]

-- Without an address `strtoul` gets a null pointer. The number of words is not cut here.
unfoldable pub xp_command : ℕ → Host → State → List (List ℕ) → Outcome Session
unfolding dump_physical
xp_command fuel host state tokens = elim (get_elem? tokens 1) [
  | none ↦ undefined
  | some arg ↦ elim (get_elem? tokens 2) [
    | none ↦ dump_physical fuel host state (strtoul_16 arg) 1
    | some count ↦ atoi count >>= λ repeat. dump_physical fuel host state (strtoul_16 arg) repeat
  ]
]

-- `token_count > 2`.
unfoldable pub w_command : Host → State → List (List ℕ) → Outcome Session
w_command host state tokens = with_arg tokens host state (λ arg. elim (get_elem? tokens 2) [
  | none ↦ session host state nothing
  | some value ↦
      write_memory_virtual host.env state (get_address arg) (get_value_hex value) >>= λ state'.
      session host state' confirmed
])

abbrev pub names : List ℕ → String → Bool
names command name = same_text command (codes name)

-- The chain of tests on `tokens[0]`, less that of `q`.
unfoldable pub run_command : ℕ → Host → State → List ℕ → List (List ℕ) → Outcome Session
unfolding get_repeat dump_virtual dump_physical disassemble step_command save_command load_command
    xp_command w_command
run_command fuel host state command tokens =
    if names command "help" || names command "?"
    then session host state help
    else if names command "regs"
    then session host state registers
    else if names command "reg"
    then with_arg tokens host state (λ name. session host state (register name))
    else if names command "p"
    then with_arg tokens host state
        (λ name. dump_virtual fuel host state (get_register_value state name) tokens)
    else if names command "pp"
    then with_arg tokens host state (λ name. get_repeat tokens >>= λ repeat.
        dump_physical fuel host state (get_register_value state name) repeat)
    else if names command "x"
    then with_arg tokens host state (λ arg. dump_virtual fuel host state (get_address arg) tokens)
    else if names command "xs"
    then with_arg tokens host state (λ arg.
      dump_string_virtual fuel state (get_address arg) >>= λ (state', shown').
      ok (record { state = state'; host = host; shown = text shown' }))
    else if names command "xp"
    then xp_command fuel host state tokens
    else if names command "w"
    then w_command host state tokens
    else if names command "d"
    then with_arg tokens host state (λ arg. disassemble fuel host state (get_address arg) tokens)
    else if names command "dr"
    then with_arg tokens host state
        (λ name. disassemble fuel host state (get_register_value state name) tokens)
    else if names command "step"
    then with_arg tokens host state (step_command host state)
    else if names command "bt"
    then (dump_backtrace state >>= λ (state', shown'). session host state' (lines shown'))
    else if names command "sym"
    then (get_symbol host.symbol_list state.pc >>= λ found. session host state (current found))
    else if names command "save"
    then with_arg tokens host state (save_command host state)
    else if names command "load"
    then with_arg tokens host state (load_command host state)
    else session host state nothing

-- What `run_monitor_loop` returns: -1, 1, or 0 with the input behind the line.
pub data Reply : Type 0 where
  end_of_input : Reply
  quit : Reply
  next : Session → List ℕ → Reply

-- A line of blanks has no token, and the first test then goes through a null pointer.
unfoldable pub run_line : ℕ → Host → State → List (List ℕ) → List ℕ → Outcome Reply
unfolding run_command
run_line fuel host state [] rest = undefined
run_line fuel host state (command ∷ args) rest =
    if names command "q"
    then ok quit
    else (run_command fuel host state command (command ∷ args) >>= λ after. ok (next after rest))

-- An empty line does nothing.
unfoldable pub read_command : ℕ → Host → State → List ℕ → List ℕ → Outcome Reply
unfolding run_line
read_command fuel host state [] rest =
    ok (next (record { state = some state; host = host; shown = nothing }) rest)
read_command fuel host state (c ∷ line) rest =
    run_line fuel host state (tokenize max_tokens (c ∷ line)) rest

unfoldable pub run_monitor_loop : ℕ → Host → State → List ℕ → Outcome Reply
unfolding read_command
run_monitor_loop fuel host state input = elim (fgets input) [
  | none ↦ ok end_of_input
  | some (buffer, rest) ↦ read_command fuel host state (cut_line buffer) rest
]

-- How a run of the monitor ends: with the state and the files, or with too little fuel for a walk over
-- the memory, or for the rounds.
pub data Ending : Type 0 where
  left : State → Host → Ending
  walking : Ending
  out_of_rounds : Ending

-- The first argument is the number of rounds.
unfoldable pub run_monitor : ℕ → ℕ → Host → State → List ℕ → Outcome Ending
run_monitor zero fuel host state input = ok out_of_rounds
run_monitor (suc rounds) fuel host state input = run_monitor_loop fuel host state input >>= λ reply.
    elim reply [
      | end_of_input ↦ ok (left state host)
      | quit ↦ ok (left state host)
      | next after rest ↦ elim after.state [
        | none ↦ ok walking
        | some state' ↦ run_monitor rounds fuel after.host state' rest
      ]
    ]
