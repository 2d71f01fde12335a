-- ===== src/Monitor/Valid.antt =====
-- The walks of the monitor over the memory, and its writes, keep the state well-formed.
pub mod Commands
pub mod Sessions
use emuriscv.Base.{
  ℕ, zero, suc, ◌+◌, ◌≡◌, refl, arith, Bool, true, false, if◌then◌else◌, List, [], ◌∷◌, ◌++◌,
  Option, none, some, Outcome, ok, ◌>>=◌, add32, IsWord, Holds, Holds-ok, Holds-if, Holds-bind, ltb,
}
use emuriscv.Fdt.Text.{codes, same_text}
use emuriscv.Machine.{State, Environment}
use emuriscv.Machine.Valid.{IsValid, KeepsValid}
use emuriscv.Memory.Translate.{Target, get_memory_target, load, found, faulted, no_range}
use emuriscv.Memory.Access.{read_word, write_word}
use emuriscv.Memory.Valid.Translate.{StateIsValid, get_memory_target-IsValid}
use emuriscv.Memory.Valid.Access.{read_word-IsValid, write_word-IsValid}
use emuriscv.Disassembler.{disassemble_op}
use emuriscv.Cpu.Step.{pc_history_depth, emulate_op}
use emuriscv.Cpu.Valid.Step.{emulate_op-IsValid}
use emuriscv.Monitor.{
  word_size, bound, dump_virtual_from, dump_memory_virtual, disassemble_word, write_memory_virtual,
  get_register_value, find_register,
}
use emuriscv.Monitor.Strings.{
  dump_string_virtual, dump_data_as_string_check_terminated, backtrace_from, dump_backtrace,
}

-- The state after a walk, where the fuel was enough, is well-formed.
abbrev pub EndIsValid : Option State → Type 0
EndIsValid none = Unit
EndIsValid (some s) = IsValid s

abbrev pub WalkIsValid {ℓ} : {A : Type ℓ} → Option State × A → Type 0
WalkIsValid r = EndIsValid (r.0)

next_word : (a : ℕ) → IsWord (add32 a word_size)
next_word a = omega arith

-- A load that follows a translation of its address.
pub after_read-IsValid :
    {B : Type 0} {Q : B → Type 0} (s : State) (a : ℕ) (f : State → ℕ → Outcome B)
    → IsWord a
    → IsValid s
    → ((s' : State) (d : ℕ) → IsValid s' → Holds Q (f s' d))
    → Holds Q (
        get_memory_target s a load >>= λ (translated, status).
        read_word translated a >>= λ (s', data'). f s' data')
after_read-IsValid s a f fits h k =
    Holds-bind _ _ (get_memory_target-IsValid s a load fits h)
      (λ r v. Holds-bind _ _ (read_word-IsValid (r.0) a fits v) (λ q w. k (q.0) (q.1) w.state))

pub dump_virtual_from-IsValid :
    (fuel : ℕ) (s : State) (a limit : ℕ)
    → IsWord a
    → IsValid s
    → Holds WalkIsValid (dump_virtual_from fuel s a limit)
unfolding dump_virtual_from
dump_virtual_from-IsValid zero s a limit fits h = Holds-ok _ tt
dump_virtual_from-IsValid (suc fuel) s a limit fits h =
    Holds-if (ltb a limit) _ _
      (after_read-IsValid s a _ fits h (λ s' d v.
        Holds-bind _ _ (dump_virtual_from-IsValid fuel s' (add32 a word_size) limit (next_word a) v)
          (λ r w. Holds-ok _ w)))
      (Holds-ok _ h)

pub disassemble_word-IsValid :
    (fuel : ℕ) (s : State) (a count : ℕ)
    → IsWord a
    → IsValid s
    → Holds WalkIsValid (disassemble_word fuel s a count)
unfolding disassemble_word
disassemble_word-IsValid fuel s a count fits h =
    Holds-bind _ _ (dump_virtual_from-IsValid fuel s a (bound a count) fits h) (λ r v. Holds-ok _ v)

string_word-IsValid :
    (terminated : Bool) (s : State) (text : List ℕ) (rest : Outcome (Option State × List ℕ))
    → IsValid s
    → Holds WalkIsValid rest
    → Holds WalkIsValid (if terminated then ok (some s, text) else rest)
string_word-IsValid true s text rest h k = Holds-ok _ h
string_word-IsValid false s text rest h k = k

string_status-IsValid :
    (status : Target) (s : State) (shown : Outcome (Option State × List ℕ))
    → IsValid s
    → Holds WalkIsValid shown
    → Holds WalkIsValid (elim status [
      | found target ↦ shown
      | faulted ↦ ok (some s, [])
      | no_range ↦ ok (some s, [])
    ])
string_status-IsValid (found target) s shown h k = k
string_status-IsValid faulted s shown h k = Holds-ok _ h
string_status-IsValid no_range s shown h k = Holds-ok _ h

pub dump_string_virtual-IsValid :
    (fuel : ℕ) (s : State) (a : ℕ)
    → IsWord a
    → IsValid s
    → Holds WalkIsValid (dump_string_virtual fuel s a)
unfolding dump_string_virtual
dump_string_virtual-IsValid zero s a fits h = Holds-ok _ tt
dump_string_virtual-IsValid (suc fuel) s a fits h =
    Holds-bind _ _ (get_memory_target-IsValid s a load fits h) (λ r v.
      string_status-IsValid (r.1) (r.0) _ v (
        Holds-bind _ _ (read_word-IsValid (r.0) a fits v) (λ q w.
          string_word-IsValid ((dump_data_as_string_check_terminated (q.1)).1) (q.0) _ _ w.state (
            Holds-bind _ _
              (dump_string_virtual-IsValid fuel (q.0) (add32 a word_size) (next_word a) w.state)
              (λ p u. Holds-ok _ u)))))

backtrace_from-IsValid :
    (left i : ℕ) (s : State) → IsValid s → Holds StateIsValid (backtrace_from left i s)
unfolding backtrace_from
backtrace_from-IsValid zero i s h = Holds-ok _ h
backtrace_from-IsValid (suc left) i s h =
    after_read-IsValid s (s.pc_history i) _ (h.history i) h
      (λ s' d v. Holds-bind _ _ (backtrace_from-IsValid left (i + 1) s' v) (λ r w. Holds-ok _ w))

pub dump_backtrace-IsValid : (s : State) → IsValid s → Holds StateIsValid (dump_backtrace s)
unfolding dump_backtrace
dump_backtrace-IsValid s h = backtrace_from-IsValid pc_history_depth 0 s h

pub write_memory_virtual-IsValid :
    (env : Environment) (s : State) (a v : ℕ)
    → KeepsValid env
    → IsWord a
    → IsWord v
    → IsValid s
    → Holds IsValid (write_memory_virtual env s a v)
unfolding write_memory_virtual
write_memory_virtual-IsValid env s a v keeps at fits h =
    Holds-bind _ _ (get_memory_target-IsValid s a load at h)
      (λ r k. write_word-IsValid env (r.0) a v keeps k at fits)

register_or_zero :
    (o : Option ℕ) (s : State) → IsValid s → IsWord (elim o [ none ↦ 0 | some i ↦ s.x i ])
register_or_zero none s h = omega arith
register_or_zero (some i) s h = h.registers i

pub get_register_value-IsWord :
    (s : State) (name : List ℕ) → IsValid s → IsWord (get_register_value s name)
unfolding get_register_value
get_register_value-IsWord s name h =
    elim (same_text name (codes "pc"))
      as (λ b.
        IsWord (if b then s.pc else elim (find_register name) [ none ↦ 0 | some i ↦ s.x i ])) [
          | true ↦ h.program_counter
          | false ↦ register_or_zero (find_register name) s h
        ]
