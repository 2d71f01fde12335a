-- ===== src/Monitor/Valid/Sessions.antt =====
-- A session of the monitor keeps the state well-formed, and so does the part of `ecall` for user mode.
use emuriscv.Base.{
  ℕ, zero, suc, List, [], ◌∷◌, Option, none, some, ok, Holds, Holds-ok, Holds-undefined, Holds-if,
  Holds-bind, Holds-unfinished,
}
use emuriscv.Machine.{State, Environment}
use emuriscv.Machine.Valid.{IsValid, KeepsValid}
use emuriscv.Monitor.Input.{fgets, cut_line, tokenize, max_tokens}
use emuriscv.Monitor.Commands.{
  Host, Reply, end_of_input, quit, next, Ending, left, walking, out_of_rounds, run_line,
  read_command, run_monitor_loop, run_monitor,
}
use emuriscv.Monitor.Trace.{
  Sitting, Limits, host_of, trace_user_ecall, tracing, after_walk, after_monitor, reg_a1,
}
use emuriscv.Monitor.Valid.{EndIsValid, dump_string_virtual-IsValid}
use emuriscv.Monitor.Valid.Commands.{FileIsValid, HostIsValid, SessionIsValid, run_command-IsValid}

abbrev ReplyIsValid : Reply → Type 0
ReplyIsValid end_of_input = Unit
ReplyIsValid quit = Unit
ReplyIsValid (next after rest) = SessionIsValid after

abbrev EndingIsValid : Ending → Type 0
EndingIsValid (left s host) = IsValid s
EndingIsValid walking = Unit
EndingIsValid out_of_rounds = Unit

module _ (fuel : ℕ) (host : Host) (s : State) (hv : HostIsValid host) (h : IsValid s) where
  run_line-IsValid :
      (tokens : List (List ℕ)) (rest : List ℕ)
      → Holds ReplyIsValid (run_line fuel host s tokens rest)
  unfolding run_line
  run_line-IsValid [] rest = Holds-undefined
  run_line-IsValid (command ∷ args) rest = Holds-if _ _ _ (Holds-ok quit tt) (
      Holds-bind _ _ (run_command-IsValid fuel host s hv h command (command ∷ args))
        (λ after v. Holds-ok (next after rest) v))

  read_command-IsValid :
      (line rest : List ℕ) → Holds ReplyIsValid (read_command fuel host s line rest)
  unfolding read_command
  read_command-IsValid [] rest =
      Holds-ok (next _ rest) (record { state_valid = h; host_valid = hv })
  read_command-IsValid (c ∷ line) rest = run_line-IsValid (tokenize max_tokens (c ∷ line)) rest

  run_monitor_loop-IsValid :
      (input : List ℕ) → Holds ReplyIsValid (run_monitor_loop fuel host s input)
  unfolding run_monitor_loop
  run_monitor_loop-IsValid input = by_line (fgets input)
    where
      by_line :
          (line : Option (List ℕ × List ℕ))
          → Holds ReplyIsValid (elim line [
            | none ↦ ok end_of_input
            | some (buffer, rest) ↦ read_command fuel host s (cut_line buffer) rest
          ])
      by_line none = Holds-ok end_of_input tt
      by_line (some (buffer, rest)) = read_command-IsValid (cut_line buffer) rest

module _ (rounds fuel : ℕ) (host : Host) (s : State) (h : IsValid s)
    (again : (h' : Host) (s' : State) (rest : List ℕ)
      → HostIsValid h'
      → IsValid s'
      → Holds EndingIsValid (run_monitor rounds fuel h' s' rest)) where
  next-IsValid :
      (o : Option State) (h' : Host) (rest : List ℕ)
      → EndIsValid o
      → HostIsValid h'
      → Holds EndingIsValid
          (elim o [ none ↦ ok walking | some s' ↦ run_monitor rounds fuel h' s' rest ])
  next-IsValid none h' rest v w = Holds-ok walking tt
  next-IsValid (some s') h' rest v w = again h' s' rest w v

  reply-IsValid :
      (reply : Reply)
      → ReplyIsValid reply
      → Holds EndingIsValid (elim reply [
        | end_of_input ↦ ok (left s host)
        | quit ↦ ok (left s host)
        | next after rest ↦ elim after.state [
          | none ↦ ok walking
          | some s' ↦ run_monitor rounds fuel after.host s' rest
        ]
      ])
  reply-IsValid end_of_input v = Holds-ok (left s host) h
  reply-IsValid quit v = Holds-ok (left s host) h
  reply-IsValid (next after rest) v =
      next-IsValid after.state after.host rest v.state_valid v.host_valid

run_monitor-IsValid :
    (rounds fuel : ℕ) (host : Host) (s : State) (input : List ℕ)
    → HostIsValid host
    → IsValid s
    → Holds EndingIsValid (run_monitor rounds fuel host s input)
unfolding run_monitor
run_monitor-IsValid zero fuel host s input hv h = Holds-ok out_of_rounds tt
run_monitor-IsValid (suc rounds) fuel host s input hv h =
    Holds-bind _ _ (run_monitor_loop-IsValid fuel host s hv h input) (
      reply-IsValid rounds fuel host s h (λ h' s' rest. run_monitor-IsValid rounds fuel h' s' rest))

after_walk-IsValid : (o : Option State) → EndIsValid o → Holds IsValid (after_walk o)
unfolding after_walk
after_walk-IsValid none h = Holds-unfinished
after_walk-IsValid (some s) h = Holds-ok s h

after_monitor-IsValid : (e : Ending) → EndingIsValid e → Holds IsValid (after_monitor e)
unfolding after_monitor
after_monitor-IsValid (left s host) h = Holds-ok s h
after_monitor-IsValid walking h = Holds-unfinished
after_monitor-IsValid out_of_rounds h = Holds-unfinished

-- The files that the host has at a stop are such as well-formed states are saved in.
abbrev pub SittingIsValid : Sitting → Type 0
SittingIsValid sitting = (name : List ℕ) → FileIsValid (sitting.files name)

trace_user_ecall-IsValid :
    (limits : Limits) (env : Environment) (sitting : Sitting) (s : State)
    → KeepsValid env
    → SittingIsValid sitting
    → IsValid s
    → Holds IsValid (trace_user_ecall limits env sitting s)
unfolding trace_user_ecall
trace_user_ecall-IsValid limits env sitting s keeps files h =
    Holds-if _ _ _
      (Holds-bind _ _
        (dump_string_virtual-IsValid limits.fuel s (s.x reg_a1) (h.registers reg_a1) h)
        (λ r v. after_walk-IsValid (r.0) v))
      (Holds-if _ _ _
        (Holds-bind _ _
          (run_monitor-IsValid limits.rounds limits.fuel (host_of env sitting) s sitting.typed
            (record { keeps = keeps; files_valid = files }) h)
          after_monitor-IsValid)
        (Holds-ok s h))

-- The environments in which the monitor runs keep the state well-formed.
pub tracing-KeepsValid :
    (depth : ℕ) (limits : Limits) (reset : ℕ → State → State) (sitting : State → Sitting)
    → ((mask : ℕ) (s : State) → IsValid s → IsValid (reset mask s))
    → ((s : State) → SittingIsValid (sitting s))
    → KeepsValid (tracing depth limits reset sitting)
unfolding tracing
tracing-KeepsValid zero limits reset sitting keeps files = record {
  reset = keeps;
  trace = λ s h. Holds-unfinished;
}
tracing-KeepsValid (suc depth) limits reset sitting keeps files = record {
  reset = keeps;
  trace = λ s h.
      trace_user_ecall-IsValid limits (tracing depth limits reset sitting) (sitting s) s
        (tracing-KeepsValid depth limits reset sitting keeps files) (files s) h;
}
