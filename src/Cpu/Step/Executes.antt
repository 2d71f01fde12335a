-- ===== src/Cpu/Step/Executes.antt =====
-- How `emulate_op` goes from the fetch to the handler.
use emuriscv.Base.{ℕ, ◌≡◌, refl, true, false, add32, ok, ◌>>=◌, ◌≢◌, arith}
use emuriscv.Machine.{State, Environment, write_csr}
use emuriscv.Memory.Ram.{MemoryTarget, read_word_ram}
use emuriscv.Memory.Translate.{get_memory_target, fetch, found}
use emuriscv.Cpu.Opcode.{Opcode, matches}
use emuriscv.Cpu.Dispatch.{execute}
use emuriscv.Cpu.Dispatch.Unique.{dispatch-matches}
use emuriscv.Cpu.Step.{emulate_op, finish_op, take_pending, csr_time, csr_cycle}

-- Where the fetch finds a word in the memory that passes the test of an opcode, `emulate_op` runs the
-- handler of that opcode, on the state of the fetch with `pc` at the next instruction, and then the
-- book-keeping; where the handler ends the process or is undefined, so is `emulate_op`.
pub emulate_op-execute :
    (env : Environment) (op : Opcode) (s fetched : State) (pointer : MemoryTarget) (w : ℕ)
    → get_memory_target s s.pc fetch ≡ ok (fetched, found pointer)
    → read_word_ram fetched.memory_map pointer ≡ ok w
    → matches w op ≡ true
    → emulate_op env s
      ≡ execute env op (record fetched { pc = add32 fetched.pc 4 }) w >>= λ done.
          ok (finish_op done)
unfolding emulate_op
emulate_op-execute env op s fetched pointer w target word_there m =
    rw
      (target, word_there, dispatch-matches env op (record fetched { pc = add32 fetched.pc 4 }) w m)
      refl

-- With no exception pending the book-keeping leaves the rest of the state alone.
pub record Keeps (s after : State) : Type 0 where
  pub pc_kept : after.pc ≡ s.pc
  pub registers : after.x ≡ s.x
  pub memory : after.memory_map ≡ s.memory_map
  pub level : after.privilege ≡ s.privilege
  pub quiet : after.has_pending_exception ≡ false
  pub csrs : (csr : ℕ) → csr ≢ csr_time → csr ≢ csr_cycle → after.csr csr ≡ s.csr csr

pub finish_op-Keeps : (s : State) → s.has_pending_exception ≡ false → Keeps s (finish_op s)
unfolding finish_op take_pending write_csr
finish_op-Keeps s h = rw h (record {
  pc_kept = refl;
  registers = refl;
  memory = refl;
  level = refl;
  quiet = refl;
  csrs = λ csr a b. ground arith;
})
