-- ===== src/Monitor/Valid/Commands.antt =====
-- A command of the monitor keeps the state well-formed.
use emuriscv.Base.{
  ℕ, zero, suc, arith, Bool, true, false, if◌then◌else◌, List, Option, none, some, Outcome, ok,
  IsWord, Holds, Holds-ok, Holds-undefined, Holds-if, Holds-bind, Holds-after, Holds-option,
  get_elem?,
}
use emuriscv.Fdt.Text.{same_text}
use emuriscv.Machine.{State, Environment}
use emuriscv.Machine.Valid.{IsValid, KeepsValid}
use emuriscv.Symbols.{get_symbol}
use emuriscv.StateFile.{load}
use emuriscv.StateFile.Valid.{IsStateFile, load-IsValid, save-IsStateFile}
use emuriscv.Cpu.Valid.Step.{emulate_op-IsValid}
use emuriscv.Monitor.{Dump, get_register_value, dump_memory_physical, dump_memory_virtual, bound}
use emuriscv.Monitor.Input.{strtoul_16, atoi}
use emuriscv.Monitor.Valid.{
  EndIsValid, dump_virtual_from-IsValid, disassemble_word-IsValid, dump_string_virtual-IsValid,
  dump_backtrace-IsValid, write_memory_virtual-IsValid, get_register_value-IsWord,
}
use emuriscv.Monitor.Commands.{
  Host, Session, Shown, session, get_repeat, show_words, show_lines, dump_virtual, dump_physical,
  disassemble, steps, save_command, load_command, step_command, with_arg, xp_command, w_command,
  run_command, nothing, words,
}

-- A file that the monitor may load: none, or one that gives well-formed states.
abbrev pub FileIsValid : Option (List ℕ) → Type 0
FileIsValid none = Unit
FileIsValid (some file) = IsStateFile file

pub record HostIsValid (host : Host) : Type 0 where
  pub keeps : KeepsValid host.env
  pub files_valid : (name : List ℕ) → FileIsValid (host.files name)

pub record SessionIsValid (after : Session) : Type 0 where
  pub state_valid : EndIsValid after.state
  pub host_valid : HostIsValid after.host

strtoul_16-IsWord : (token : List ℕ) → IsWord (strtoul_16 token)
unfolding strtoul_16
strtoul_16-IsWord token = ground arith

load_file-IsValid :
    (file : Option (List ℕ)) (filler : ℕ → ℕ) (s : State)
    → FileIsValid file
    → IsValid s
    → Holds IsValid (load filler file s)
unfolding load
load_file-IsValid none filler s f h = Holds-undefined
load_file-IsValid (some file) filler s f h = load-IsValid filler file s f h

saved_file :
    (b : Bool) (file : List ℕ) (old : Option (List ℕ))
    → IsStateFile file
    → FileIsValid old
    → FileIsValid (if b then some file else old)
saved_file true file old f h = f
saved_file false file old f h = h

steps-IsValid :
    (env : Environment) (repeat : ℕ) (s : State)
    → KeepsValid env
    → IsValid s
    → Holds IsValid (steps env repeat s)
unfolding steps
steps-IsValid env zero s keeps h = Holds-ok s h
steps-IsValid env (suc repeat) s keeps h =
    Holds-bind _ _ (emulate_op-IsValid env s keeps h) (λ t k. steps-IsValid env repeat t keeps k)

-- The commands.
module _ (fuel : ℕ) (host : Host) (s : State) (hv : HostIsValid host) (h : IsValid s) where
  ended :
      (o : Option State) (shown : Shown)
      → EndIsValid o
      → Holds SessionIsValid (ok (record { state = o; host = host; shown = shown }))
  ended o shown k = Holds-ok _ (record { state_valid = k; host_valid = hv })

  same : (shown : Shown) → Holds SessionIsValid (session host s shown)
  same shown = ended (some s) shown h

  dump_virtual-IsValid :
      (a : ℕ) (tokens : List (List ℕ))
      → IsWord a
      → Holds SessionIsValid (dump_virtual fuel host s a tokens)
  unfolding dump_virtual show_words dump_memory_virtual
  dump_virtual-IsValid a tokens fits = Holds-after (get_repeat tokens) _ (λ count.
      Holds-bind _ _ (dump_virtual_from-IsValid fuel s a (bound a count) fits h)
        (λ r v. ended (r.0) (words (r.1)) v))

  disassemble-IsValid :
      (a : ℕ) (tokens : List (List ℕ))
      → IsWord a
      → Holds SessionIsValid (disassemble fuel host s a tokens)
  unfolding disassemble show_lines
  disassemble-IsValid a tokens fits = Holds-after (get_repeat tokens) _ (λ count.
      Holds-bind _ _ (disassemble_word-IsValid fuel s a count fits h)
        (λ r v. ended (r.0) (Shown.lines (r.1)) v))

  physical_end :
      (walk : Option Dump)
      → Holds SessionIsValid (elim walk [
        | none ↦ ok (record { state = none; host = host; shown = nothing })
        | some dump ↦ session host s (words dump)
      ])
  physical_end none = ended none nothing tt
  physical_end (some dump) = same (words dump)

  dump_physical-IsValid : (a count : ℕ) → Holds SessionIsValid (dump_physical fuel host s a count)
  unfolding dump_physical
  dump_physical-IsValid a count = Holds-after (dump_memory_physical fuel s a count) _ physical_end

  save_command-IsValid : (name : List ℕ) → Holds SessionIsValid (save_command host s name)
  unfolding save_command
  save_command-IsValid name = Holds-bind _ _ (save-IsStateFile host.filler s h) (λ file f.
      Holds-ok _ (record {
        state_valid = h;
        host_valid = record {
          keeps = hv.keeps;
          files_valid = λ n. saved_file (same_text n name) file (host.files n) f (hv.files_valid n);
        };
      }))

  load_command-IsValid : (name : List ℕ) → Holds SessionIsValid (load_command host s name)
  unfolding load_command
  load_command-IsValid name =
      Holds-bind _ _ (load_file-IsValid (host.files name) host.filler s (hv.files_valid name) h)
        (λ t k. ended (some t) nothing k)

  step_command-IsValid : (count : List ℕ) → Holds SessionIsValid (step_command host s count)
  unfolding step_command
  step_command-IsValid count = Holds-after (atoi count) _ (λ repeat.
      Holds-bind _ _ (steps-IsValid host.env repeat s hv.keeps h) (λ t k. ended (some t) nothing k))

  with_arg-IsValid :
      (tokens : List (List ℕ)) (command : List ℕ → Outcome Session)
      → ((arg : List ℕ) → Holds SessionIsValid (command arg))
      → Holds SessionIsValid (with_arg tokens host s command)
  with_arg-IsValid tokens command k =
      Holds-option (get_elem? tokens 1) _ command (same nothing) (λ arg e. k arg)

  xp_command-IsValid :
      (tokens : List (List ℕ)) → Holds SessionIsValid (xp_command fuel host s tokens)
  unfolding xp_command
  xp_command-IsValid tokens = Holds-option (get_elem? tokens 1) _ _ Holds-undefined (λ arg e.
      Holds-option (get_elem? tokens 2) _ _ (dump_physical-IsValid (strtoul_16 arg) 1)
        (λ count e'. Holds-after (atoi count) _ (dump_physical-IsValid (strtoul_16 arg))))

  w_command-IsValid : (tokens : List (List ℕ)) → Holds SessionIsValid (w_command host s tokens)
  unfolding w_command
  w_command-IsValid tokens = with_arg-IsValid tokens _ (λ arg.
      Holds-option (get_elem? tokens 2) _ _ (same nothing) (λ value e.
        Holds-bind _ _
          (write_memory_virtual-IsValid host.env s _ _ hv.keeps (strtoul_16-IsWord arg)
            (strtoul_16-IsWord value) h)
          (λ t k. ended (some t) Shown.confirmed k)))

  pub run_command-IsValid :
      (command : List ℕ) (tokens : List (List ℕ))
      → Holds SessionIsValid (run_command fuel host s command tokens)
  unfolding run_command
  run_command-IsValid command tokens =
      let arg = with_arg-IsValid tokens in
      Holds-if _ _ _ (same Shown.help) (
        Holds-if _ _ _ (same Shown.registers) (
          Holds-if _ _ _ (arg _ (λ name. same (Shown.register name))) (
            Holds-if _ _ _
              (arg _ (λ name. dump_virtual-IsValid _ tokens (get_register_value-IsWord s name h)))
              (Holds-if _ _ _
                (arg _ (λ name.
                  Holds-after (get_repeat tokens) _
                    (dump_physical-IsValid (get_register_value s name))))
                (Holds-if _ _ _ (arg _ (λ a. dump_virtual-IsValid _ tokens (strtoul_16-IsWord a))) (
                  Holds-if _ _ _
                    (arg _ (λ a.
                      Holds-bind _ _ (dump_string_virtual-IsValid fuel s _ (strtoul_16-IsWord a) h)
                        (λ r v. ended (r.0) (Shown.text (r.1)) v)))
                    (Holds-if _ _ _ (xp_command-IsValid tokens) (
                      Holds-if _ _ _ (w_command-IsValid tokens) (
                        Holds-if _ _ _
                          (arg _ (λ a. disassemble-IsValid _ tokens (strtoul_16-IsWord a)))
                          (Holds-if _ _ _
                            (arg _ (λ name.
                              disassemble-IsValid _ tokens (get_register_value-IsWord s name h)))
                            (Holds-if _ _ _ (arg _ step_command-IsValid) (
                              Holds-if _ _ _
                                (Holds-bind _ _ (dump_backtrace-IsValid s h)
                                  (λ r v. ended (some (r.0)) (Shown.lines (r.1)) v))
                                (Holds-if _ _ _
                                  (Holds-after (get_symbol host.symbol_list s.pc) _
                                    (λ found. same (Shown.current found)))
                                  (Holds-if _ _ _ (arg _ save_command-IsValid) (
                                    Holds-if _ _ _ (arg _ load_command-IsValid)
                                      (same nothing))))))))))))))))
