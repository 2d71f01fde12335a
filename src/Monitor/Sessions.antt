-- ===== src/Monitor/Sessions.antt =====
-- Runs of the monitor.
use emuriscv.Base.{
  ℕ, zero, suc, ◌≤◌, ◌<◌, ◌≡◌, refl, arith, Bool-cases, inl, inr, ◌==◌, List, [], ◌∷◌, length,
  Option, none, some, ok, Holds, Holds-ok, Holds-undefined, Holds-if, Holds-bind, Holds-after, ◌-◌,
}
use mathlib.Core.Path.{subst, sym}
use emuriscv.Machine.{State}
use emuriscv.Monitor.Input.{read_line, fgets, newline, buffer_size, cut_line, tokenize, max_tokens}
use emuriscv.Monitor.Commands.{
  Host, Reply, end_of_input, quit, next, Ending, left, walking, out_of_rounds, read_command,
  run_line, run_command, run_monitor_loop, run_monitor,
}

-- `fgets` takes no more than there is, and a byte at least where there is one.
read_line-le : (room : ℕ) (input : List ℕ) → length (read_line room input).1 ≤ length input
unfolding read_line
read_line-le zero input = omega arith
read_line-le (suc room) [] = omega arith
read_line-le (suc room) (c ∷ input) = elim (Bool-cases (c == newline)) [
  | inl e ↦ rw e (omega arith)
  | inr e ↦ rw e (omega (arith, read_line-le room input))
]

read_line-lt :
    (room c : ℕ) (input : List ℕ) → length (read_line (suc room) (c ∷ input)).1 < length (c ∷ input)
unfolding read_line
read_line-lt room c input = elim (Bool-cases (c == newline)) [
  | inl e ↦ rw e (omega arith)
  | inr e ↦ rw e (omega (arith, read_line-le room input))
]

-- The monitor goes on with this input, if it goes on.
abbrev GoesOn : List ℕ → Reply → Type 0
GoesOn rest end_of_input = Unit
GoesOn rest quit = Unit
GoesOn rest (next after input) = input ≡ rest

run_line-GoesOn :
    (fuel : ℕ) (host : Host) (state : State) (tokens : List (List ℕ)) (rest : List ℕ)
    → Holds (GoesOn rest) (run_line fuel host state tokens rest)
unfolding run_line
run_line-GoesOn fuel host state [] rest = Holds-undefined
run_line-GoesOn fuel host state (command ∷ args) rest = Holds-if _ _ _ (Holds-ok quit tt) (
    Holds-after (run_command fuel host state command (command ∷ args))
      (λ after. ok (next after rest)) (λ after. Holds-ok (next after rest) refl))

read_command-GoesOn :
    (fuel : ℕ) (host : Host) (state : State) (line rest : List ℕ)
    → Holds (GoesOn rest) (read_command fuel host state line rest)
unfolding read_command
read_command-GoesOn fuel host state [] rest = Holds-ok _ refl
read_command-GoesOn fuel host state (c ∷ line) rest =
    run_line-GoesOn fuel host state (tokenize max_tokens (c ∷ line)) rest

-- Enough rounds: the run has not stopped for want of them.
abbrev pub HasEnded : Ending → Type 0
HasEnded (left state host) = Unit
HasEnded walking = Unit
HasEnded out_of_rounds = ⊥

module _ (rounds fuel : ℕ) (host : Host) (state : State) (rest : List ℕ)
    (ends : (h : Host) (s : State) → Holds HasEnded (run_monitor rounds fuel h s rest)) where
  after_command :
      (o : Option State) (h : Host) (input : List ℕ)
      → input ≡ rest
      → Holds HasEnded (elim o [ none ↦ ok walking | some s ↦ run_monitor rounds fuel h s input ])
  after_command none h input e = Holds-ok walking tt
  after_command (some s) h input e =
      subst (λ l. Holds HasEnded (run_monitor rounds fuel h s l)) (sym e) (ends h s)

  after_reply :
      (reply : Reply)
      → GoesOn rest reply
      → Holds HasEnded (elim reply [
        | end_of_input ↦ ok (left state host)
        | quit ↦ ok (left state host)
        | next after input ↦ elim after.state [
          | none ↦ ok walking
          | some s ↦ run_monitor rounds fuel after.host s input
        ]
      ])
  after_reply end_of_input e = Holds-ok (left state host) tt
  after_reply quit e = Holds-ok (left state host) tt
  after_reply (next after input) e = after_command after.state after.host input e

below : (a b n : ℕ) → a < b → b < suc n → a < n
below a b n h k = omega arith

-- With more rounds than the input has bytes, a run of the monitor whose commands are all defined does
-- not stop for want of rounds: it leaves at `q` or at the end of the input, or a walk over the memory
-- had too little fuel.
pub run_monitor-HasEnded :
    (rounds fuel : ℕ) (host : Host) (state : State) (input : List ℕ)
    → length input < rounds
    → Holds HasEnded (run_monitor rounds fuel host state input)
unfolding run_monitor run_monitor_loop fgets
run_monitor-HasEnded zero fuel host state input h = absurd (omega arith)
run_monitor-HasEnded (suc rounds) fuel host state [] h = Holds-ok _ tt
run_monitor-HasEnded (suc rounds) fuel host state (c ∷ input) h =
    let line = read_line (buffer_size - 1) (c ∷ input) in
    Holds-bind _ _ (read_command-GoesOn fuel host state (cut_line (line.0)) (line.1)) (
      after_reply rounds fuel host state (line.1) (λ h' s.
        run_monitor-HasEnded rounds fuel h' s (line.1)
          (below _ _ rounds (read_line-lt 62 c input) h)))
