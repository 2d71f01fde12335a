-- ===== src/Monitor.antt =====
-- monitor.c: the commands of the monitor that look up registers and walk or write the memory. What
-- they print is left out but for the words that are dumped.
pub mod Loops
pub mod Strings
pub mod Input
pub mod Commands
pub mod Sessions
pub mod Numbers
pub mod Lines
pub mod Writes
pub mod Trace
pub mod Valid
use Prim.Native.String.{String}
use emuriscv.Base.{
  ℕ, zero, suc, ◌+◌, ◌/◌, ◌*◌, ◌-◌, ◌^◌, ◌%◌, ◌||◌, ltb, if◌then◌else◌, add32, List, [], ◌∷◌, ◌++◌,
  Option, none, some, get_elem?, Outcome, ok, ◌>>=◌,
}
use emuriscv.Fdt.Text.{codes, same_text}
use emuriscv.Machine.{State, Environment}
use emuriscv.Memory.Translate.{get_memory_target, load, read_word_physical}
use emuriscv.Memory.Access.{read_word, write_word}
use emuriscv.Disassembler.{disassemble_op}
use emuriscv.Disassembler.Print.{Line}

unfoldable pub reg_names : List (List ℕ)
reg_names =
    codes "zero"
    ∷ codes "ra"
    ∷ codes "sp"
    ∷ codes "gp"
    ∷ codes "tp"
    ∷ codes "t0"
    ∷ codes "t1"
    ∷ codes "t2"
    ∷ codes "s0"
    ∷ codes "s1"
    ∷ codes "a0"
    ∷ codes "a1"
    ∷ codes "a2"
    ∷ codes "a3"
    ∷ codes "a4"
    ∷ codes "a5"
    ∷ codes "a6"
    ∷ codes "a7"
    ∷ codes "s2"
    ∷ codes "s3"
    ∷ codes "s4"
    ∷ codes "s5"
    ∷ codes "s6"
    ∷ codes "s7"
    ∷ codes "s8"
    ∷ codes "s9"
    ∷ codes "s10"
    ∷ codes "s11"
    ∷ codes "t3"
    ∷ codes "t4"
    ∷ codes "t5"
    ∷ codes "t6"
    ∷ []

-- The digits of `%d` for a number below 100.
unfoldable pub decimal : ℕ → List ℕ
decimal n = if ltb n 10 then (48 + n) ∷ [] else (48 + n / 10) ∷ (48 + n % 10) ∷ []

-- `sprintf(xname, "x%d", i)`.
unfoldable pub xname : ℕ → List ℕ
unfolding decimal
xname i = 120 ∷ decimal i

-- The loop, with the index and the rest of `reg_name`; `none` is UNKNOWN_REGISTER.
unfoldable pub find_from : ℕ → List (List ℕ) → List ℕ → Option ℕ
unfolding xname
find_from i [] name = none
find_from i (reg_name ∷ rest) name =
    if same_text (xname i) name || same_text reg_name name
    then some i
    else find_from (i + 1) rest name

unfoldable pub find_register : List ℕ → Option ℕ
unfolding find_from reg_names
find_register name = find_from 0 reg_names name

-- An unknown register is reported, and its value is 0.
unfoldable pub get_register_value : State → List ℕ → ℕ
unfolding find_register
get_register_value state name =
    if same_text name (codes "pc")
    then state.pc
    else elim (find_register name) [ none ↦ 0 | some register_index ↦ state.x register_index ]

-- The words that a command shows, each with its address.
abbrev pub Dump : Type 0
Dump = List (ℕ × ℕ)

abbrev pub word_size : ℕ
word_size = 4

-- The bound `start_address + count * WORD_SIZE` is a `size_t`, of 64 bits, while the address wraps
-- round at 2 ^ 32. The first argument of the loops is fuel; `none` says that it was too little.
unfoldable pub bound : ℕ → ℕ → ℕ
bound start_address count = (start_address + count * word_size) % 2 ^ 64

unfoldable pub dump_physical_from : ℕ → State → ℕ → ℕ → Outcome (Option Dump)
dump_physical_from zero state address limit = ok none
dump_physical_from (suc fuel) state address limit =
    let shown = read_word_physical state address >>= λ data'.
    dump_physical_from fuel state (add32 address word_size) limit >>= λ rest.
    ok (elim rest [ none ↦ none | some dump ↦ some ((address, data') ∷ dump) ]) in
    if ltb address limit then shown else ok (some [])

unfoldable pub dump_memory_physical : ℕ → State → ℕ → ℕ → Outcome (Option Dump)
unfolding dump_physical_from bound
dump_memory_physical fuel state start_address count =
    dump_physical_from fuel state start_address (bound start_address count)

-- A failed translation is reported, and the word is read all the same.
unfoldable pub dump_virtual_from : ℕ → State → ℕ → ℕ → Outcome (Option State × Dump)
dump_virtual_from zero state address limit = ok (none, [])
dump_virtual_from (suc fuel) state address limit =
    let shown = get_memory_target state address load >>= λ (translated, status).
    read_word translated address >>= λ (state', data').
    dump_virtual_from fuel state' (add32 address word_size) limit >>= λ (final, rest).
    ok (final, (address, data') ∷ rest) in
    if ltb address limit then shown else ok (some state, [])

unfoldable pub dump_memory_virtual : ℕ → State → ℕ → ℕ → Outcome (Option State × Dump)
unfolding dump_virtual_from bound
dump_memory_virtual fuel state start_address count =
    dump_virtual_from fuel state start_address (bound start_address count)

-- `disassemble_word` walks in the same way and prints a line for each word.
unfoldable pub disassemble_lines : Dump → List Line
disassemble_lines [] = []
disassemble_lines ((address, data') ∷ rest) = disassemble_op data' address ∷ disassemble_lines rest

unfoldable pub disassemble_word : ℕ → State → ℕ → ℕ → Outcome (Option State × List Line)
unfolding dump_virtual_from bound disassemble_lines
disassemble_word fuel state start_address count =
    dump_virtual_from fuel state start_address (bound start_address count) >>= λ (final, dump).
    ok (final, disassemble_lines dump)

-- The translation is one of a load, and its failure does not stop the store.
unfoldable pub write_memory_virtual : Environment → State → ℕ → ℕ → Outcome State
write_memory_virtual env state address value =
    get_memory_target state address load >>= λ (translated, status).
    write_word env translated address value
