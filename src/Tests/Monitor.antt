-- ===== src/Tests/Monitor.antt =====
-- The walks of the monitor over the memory.
use emuriscv.Base.{true, [], ◌∷◌, Holds, ◌≡◌, refl, arith, some, none}
use emuriscv.Fdt.Text.{codes}
use emuriscv.Monitor.{dump_memory_virtual, find_register, find_from, reg_names, xname, decimal}
use emuriscv.Monitor.Loops.{Ended, Endless, dump_memory_virtual-ends, dump_memory_virtual-Endless}
use emuriscv.Monitor.Strings.{dump_data_as_string_check_terminated, data_bytes, has_nul}
use emuriscv.Base.{◌++◌, ok, undefined}
use emuriscv.Monitor.Input.{
  fgets, read_line, cut_line, tokenize, skip_blanks, strtoul_16, atoi, skip_space, take_sign,
  skip_prefix, digits_value, digit_of,
}
use emuriscv.Monitor.Commands.{
  Host, get_repeat, read_command, run_line, run_monitor_loop, run_monitor,
}
use emuriscv.Base.{◌>>=◌}
use emuriscv.Monitor.Commands.{next, confirmed}
use emuriscv.Monitor.{write_memory_virtual}
use emuriscv.Monitor.Writes.{w_line, hex_word, run_monitor_loop-hex}
use emuriscv.Monitor.Sessions.{HasEnded, run_monitor-HasEnded}
use emuriscv.Tests.Machines.{quiet, machine, paged, zeros}

-- Two words of the RAM.
dump_memory_virtual-ends_example :
    Holds (Ended 2 (machine zeros) 0x80000000) (dump_memory_virtual 3 (machine zeros) 0x80000000 2)
dump_memory_virtual-ends_example =
    dump_memory_virtual-ends 2 3 (machine zeros) 0x80000000 (omega arith) (omega arith)

-- The last word of the address space, which is not mapped: every read gives the fault word.
dump_memory_virtual-Endless_example : Holds Endless (dump_memory_virtual 1000 paged 0xfffffffc 1)
dump_memory_virtual-Endless_example =
    dump_memory_virtual-Endless 1 1000 paged 0xfffffffc (omega arith) (omega arith) (omega arith)

s1_is_x9 : find_register (codes "s1") ≡ find_register (codes "x9")
unfolding find_register find_from reg_names xname decimal
s1_is_x9 = refl

x9_is_found : find_register (codes "x9") ≡ some 9
unfolding find_register find_from reg_names xname decimal
x9_is_found = refl

x32_is_unknown : find_register (codes "x32") ≡ none
unfolding find_register find_from reg_names xname decimal
x32_is_unknown = refl

a_and_b_end : dump_data_as_string_check_terminated 0x6261 ≡ (97 ∷ 98 ∷ [], true)
unfolding dump_data_as_string_check_terminated data_bytes has_nul
a_and_b_end = refl

abbrev host : Host
host = record { env = quiet; symbol_list = []; files = λ name. none; filler = zeros }

-- A look at a word, an empty line, and the end of the input.
run_monitor-HasEnded_example :
    Holds HasEnded (run_monitor 20 9 host (machine zeros) (codes "x 80000000" ++ 10 ∷ 10 ∷ []))
run_monitor-HasEnded_example =
    run_monitor-HasEnded 20 9 host (machine zeros) (codes "x 80000000" ++ 10 ∷ 10 ∷ [])
      (omega arith)

-- The number of words is cut to 32 bits: -1 asks for four thousand million words.
minus_one_word : get_repeat (codes "x" ∷ codes "0" ∷ codes "-1" ∷ []) ≡ ok 0xffffffff
unfolding get_repeat atoi skip_space take_sign digits_value digit_of
minus_one_word = refl

blanks_crash : run_monitor_loop 9 host (machine zeros) (32 ∷ 32 ∷ 10 ∷ []) ≡ undefined
unfolding run_monitor_loop fgets read_line cut_line read_command run_line tokenize skip_blanks
blanks_crash = refl

strtoul_of_minus : strtoul_16 (codes "-0x10") ≡ 0xfffffff0
unfolding strtoul_16 skip_space take_sign skip_prefix digits_value digit_of
strtoul_of_minus = refl

run_monitor_loop-hex_example :
    run_monitor_loop 9 host
      (machine zeros)
      (w_line (hex_word 0x80000010) (hex_word 0x13) ++ 10 ∷ [])
    ≡ write_memory_virtual quiet (machine zeros) 0x80000010 0x13 >>= λ state'.
        ok (next (record { state = some state'; host = host; shown = confirmed }) [])
run_monitor_loop-hex_example =
    run_monitor_loop-hex 9 host (machine zeros) 0x80000010 0x13 [] (omega arith) (omega arith)

the_line : w_line (hex_word 0x80000010) (hex_word 0x13) ≡ codes "w 80000010 13"
unfolding hex_word
the_line = refl
