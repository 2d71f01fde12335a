-- ===== src/Cpu/Step/Counters.antt =====
-- The book-keeping at the end of an instruction.
use emuriscv.Base.{
  ℕ, ◌+◌, ◌<◌, ◌≡◌, refl, ap, ◌∙◌, arith, inl, inr, ◌⊎◌, Bool-cases, Bool, true, false, add32,
  if◌then◌else◌,
}
use emuriscv.Machine.{State, read_csr, write_csr}
use emuriscv.Cpu.Exception.{raise_exception, trap_to_m, trap_to_s, clear_pending}
use emuriscv.Cpu.Exception.Laws.{is_delegated, raise_exception_to_m, raise_exception_to_s}
use emuriscv.Cpu.Step.{finish_op, take_pending, shift_history, csr_time, csr_cycle}

-- What a trap leaves alone.
record KeepsHistory (s after : State) : Type 0 where
  history : after.pc_history ≡ s.pc_history
  counter : after.instruction_counter ≡ s.instruction_counter
  registers : after.x ≡ s.x

raise_exception-KeepsHistory :
    (s : State) (cause tval : ℕ) → KeepsHistory s (raise_exception s cause tval)
unfolding clear_pending trap_to_m trap_to_s write_csr
raise_exception-KeepsHistory s cause tval = elim (Bool-cases (is_delegated s cause)) [
  | inl d ↦
      rw (raise_exception_to_s s cause tval d)
        (record { history = refl; counter = refl; registers = refl })
  | inr d ↦
      rw (raise_exception_to_m s cause tval d)
        (record { history = refl; counter = refl; registers = refl })
]

keeps_if : (s a : State) (b : Bool) → KeepsHistory s a → KeepsHistory s (if b then a else s)
keeps_if s a true h = h
keeps_if s a false h = record { history = refl; counter = refl; registers = refl }

take_pending-KeepsHistory : (s : State) → KeepsHistory s (take_pending s)
unfolding take_pending
take_pending-KeepsHistory s =
    keeps_if s _ s.has_pending_exception
      (raise_exception-KeepsHistory s s.pending_exception s.pending_tval)

lt_seven :
    (j : ℕ) → j < 7 → (j ≡ 0) ⊎ ((j ≡ 1) ⊎ ((j ≡ 2) ⊎ ((j ≡ 3) ⊎ ((j ≡ 4) ⊎ ((j ≡ 5) ⊎ (j ≡ 6))))))
lt_seven j h = ground arith

shifted : (history : ℕ → ℕ) (j : ℕ) → j < 7 → shift_history 7 0 history j ≡ history (j + 1)
unfolding shift_history
shifted history j h = elim (lt_seven j h) [
  | inl e ↦ rw e refl
  | inr (inl e) ↦ rw e refl
  | inr (inr (inl e)) ↦ rw e refl
  | inr (inr (inr (inl e))) ↦ rw e refl
  | inr (inr (inr (inr (inl e)))) ↦ rw e refl
  | inr (inr (inr (inr (inr (inl e))))) ↦ rw e refl
  | inr (inr (inr (inr (inr (inr e))))) ↦ rw e refl
]

-- The end of every instruction, with a trap or without, counts the instruction in the counter and
-- in the two CSRs that show it, moves the history of `pc` down by one, and records where execution
-- goes on; it changes no register.
pub finish_op_lem :
    (s : State) (j : ℕ)
    → j < 7
    → let after = finish_op s in
      (after.pc_history j ≡ s.pc_history (j + 1))
      × (after.pc_history 7 ≡ after.pc)
      × (after.instruction_counter ≡ add32 s.instruction_counter 1)
      × (read_csr after csr_time ≡ after.instruction_counter)
      × (read_csr after csr_cycle ≡ after.instruction_counter)
      × (after.x ≡ s.x)
unfolding finish_op read_csr write_csr
finish_op_lem s j h =
    let moved = record s { pc_history = shift_history 7 0 s.pc_history } in
    let kept = take_pending-KeepsHistory moved in
    let earlier : ((take_pending moved).pc_history j) ≡ s.pc_history (j + 1) =
      ap (λ f. f j) kept.history ∙ shifted s.pc_history j h in
    (ground (arith, earlier), refl, ap (λ n. add32 n 1) kept.counter, refl, refl, kept.registers)
