-- ===== src/StateFile/Words.antt =====
-- The words of a state.
use emuriscv.Base.{ℕ, ◌+◌, ◌-◌, ◌<◌, ◌≡◌, refl, arith, IsWord, ok}
use emuriscv.Machine.{State, Status, running, breakpoint, exit_termination, status_code}
use emuriscv.Machine.Valid.{IsValid}
use emuriscv.StateFile.{state_word, status_of}

-- Every word of the object is a word.
pub record IsSaveable (rest : ℕ → ℕ) (s : State) : Type 0 where
  pub valid : IsValid s
  pub hart : IsWord s.mhartid
  pub filler : (k : ℕ) → IsWord (rest k)

status_code-IsWord : (status : Status) → IsWord (status_code status)
unfolding status_code
status_code-IsWord running = omega arith
status_code-IsWord breakpoint = omega arith
status_code-IsWord exit_termination = omega arith

pub status_of-status_code : (status : Status) → status_of (status_code status) ≡ ok status
unfolding status_code status_of
status_of-status_code running = refl
status_of-status_code breakpoint = refl
status_of-status_code exit_termination = refl

pub state_word-IsWord :
    (rest : ℕ → ℕ) (s : State) (k : ℕ) → IsSaveable rest s → IsWord (state_word rest s k)
unfolding state_word
state_word-IsWord rest s k h =
    let v = h.valid in
    ground (
      arith,
      v.registers (k - 1),
      v.csrs (k - 33),
      v.history (k - 4140),
      h.filler k,
      v.privilege_fits,
      status_code-IsWord s.status,
      h.hart,
      v.program_counter,
      v.counter,
      v.pending_cause,
      v.pending_value,
      v.reservation,
    )

pub register_word : (rest : ℕ → ℕ) (s : State) (i : ℕ) → i < 32 → state_word rest s (1 + i) ≡ s.x i
unfolding state_word
register_word rest s i h = ground arith

pub csr_word : (rest : ℕ → ℕ) (s : State) (i : ℕ) → i < 4096 → state_word rest s (33 + i) ≡ s.csr i
unfolding state_word
csr_word rest s i h = ground arith

pub history_word :
    (rest : ℕ → ℕ) (s : State) (i : ℕ) → i < 8 → state_word rest s (4140 + i) ≡ s.pc_history i
unfolding state_word
history_word rest s i h = ground arith
