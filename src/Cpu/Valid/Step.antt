-- ===== src/Cpu/Valid/Step.antt =====
-- One instruction keeps the state well-formed.
use emuriscv.Base.{ℕ, zero, suc, ◌+◌, arith, IsWord, Option, none, some, add32}
use emuriscv.Base.{Holds, Holds-ok, Holds-exit, Holds-bind, ok, exit, ◌>>=◌}
use emuriscv.Machine.{State, Environment}
use emuriscv.Machine.Valid.{IsValid, KeepsValid, write_csr-IsValid, update-IsWord, valid_if}
use emuriscv.Memory.Ram.{read_word_ram}
use emuriscv.Memory.Translate.{Target, found, faulted, no_range, fetch}
use emuriscv.Memory.Valid.Ram.{read_word_ram-IsWord}
use emuriscv.Memory.Valid.Translate.{get_memory_target-IsValid}
use emuriscv.Cpu.Opcode.{Opcode}
use emuriscv.Cpu.Dispatch.{execute, dispatch, first_match, chain, exit_illegal_instruction}
use emuriscv.Cpu.Exception.{ebreak}
use emuriscv.Cpu.Branch.{fence, fencei}
use emuriscv.Cpu.Privileged.{wfi, sfence_vma}
use emuriscv.Cpu.Step.{emulate_op, finish_op, take_pending, shift_history, fetch_exception}
use emuriscv.Cpu.Valid.Alu
use emuriscv.Cpu.Valid.Flow
use emuriscv.Cpu.Valid.Memory
use emuriscv.Cpu.Valid.Traps

module _ (env : Environment) (s : State) (w : ℕ) (keeps : KeepsValid env) (h : IsValid s) where
  execute-IsValid : (op : Opcode) → Holds IsValid (execute env op s w)
  unfolding execute fence fencei ebreak sfence_vma wfi
  execute-IsValid Opcode.add = Holds-ok _ (Alu.add-IsValid s w h)
  execute-IsValid Opcode.addi = Holds-ok _ (Alu.addi-IsValid s w h)
  execute-IsValid Opcode.and = Holds-ok _ (Alu.and-IsValid s w h)
  execute-IsValid Opcode.andi = Holds-ok _ (Alu.andi-IsValid s w h)
  execute-IsValid Opcode.auipc = Holds-ok _ (Alu.auipc-IsValid s w h)
  execute-IsValid Opcode.beq = Holds-ok _ (Flow.beq-IsValid s w h)
  execute-IsValid Opcode.bge = Holds-ok _ (Flow.bge-IsValid s w h)
  execute-IsValid Opcode.bgeu = Holds-ok _ (Flow.bgeu-IsValid s w h)
  execute-IsValid Opcode.blt = Holds-ok _ (Flow.blt-IsValid s w h)
  execute-IsValid Opcode.bltu = Holds-ok _ (Flow.bltu-IsValid s w h)
  execute-IsValid Opcode.bne = Holds-ok _ (Flow.bne-IsValid s w h)
  execute-IsValid Opcode.ebreak = Holds-ok s h
  execute-IsValid Opcode.ecall = Traps.ecall-IsValid env s w keeps h
  execute-IsValid Opcode.fence = Holds-ok s h
  execute-IsValid Opcode.fence_i = Holds-ok s h
  execute-IsValid Opcode.jal = Holds-ok _ (Flow.jal-IsValid s w h)
  execute-IsValid Opcode.jalr = Holds-ok _ (Flow.jalr-IsValid s w h)
  execute-IsValid Opcode.lb = Memory.lb-IsValid s w h
  execute-IsValid Opcode.lbu = Memory.lbu-IsValid s w h
  execute-IsValid Opcode.lh = Memory.lh-IsValid s w h
  execute-IsValid Opcode.lhu = Memory.lhu-IsValid s w h
  execute-IsValid Opcode.lui = Holds-ok _ (Alu.lui-IsValid s w h)
  execute-IsValid Opcode.lw = Memory.lw-IsValid s w h
  execute-IsValid Opcode.or = Holds-ok _ (Alu.or-IsValid s w h)
  execute-IsValid Opcode.ori = Holds-ok _ (Alu.ori-IsValid s w h)
  execute-IsValid Opcode.sb = Memory.sb-IsValid env s w keeps h
  execute-IsValid Opcode.sh = Memory.sh-IsValid env s w keeps h
  execute-IsValid Opcode.sll = Holds-ok _ (Alu.sll-IsValid s w h)
  execute-IsValid Opcode.slli = Holds-ok _ (Alu.slli-IsValid s w h)
  execute-IsValid Opcode.slt = Holds-ok _ (Alu.slt-IsValid s w h)
  execute-IsValid Opcode.slti = Holds-ok _ (Alu.slti-IsValid s w h)
  execute-IsValid Opcode.sltiu = Holds-ok _ (Alu.sltiu-IsValid s w h)
  execute-IsValid Opcode.sltu = Holds-ok _ (Alu.sltu-IsValid s w h)
  execute-IsValid Opcode.sra = Holds-ok _ (Alu.sra-IsValid s w h)
  execute-IsValid Opcode.srai = Holds-ok _ (Alu.srai-IsValid s w h)
  execute-IsValid Opcode.srl = Holds-ok _ (Alu.srl-IsValid s w h)
  execute-IsValid Opcode.srli = Holds-ok _ (Alu.srli-IsValid s w h)
  execute-IsValid Opcode.sub = Holds-ok _ (Alu.sub-IsValid s w h)
  execute-IsValid Opcode.sw = Memory.sw-IsValid env s w keeps h
  execute-IsValid Opcode.xor = Holds-ok _ (Alu.xor-IsValid s w h)
  execute-IsValid Opcode.xori = Holds-ok _ (Alu.xori-IsValid s w h)
  execute-IsValid Opcode.wfi = Holds-exit _
  execute-IsValid Opcode.mret = Traps.mret-IsValid s w h
  execute-IsValid Opcode.sret = Traps.sret-IsValid s w h
  execute-IsValid Opcode.uret = Holds-ok _ (Traps.uret-IsValid s w h)
  execute-IsValid Opcode.csrrs = Holds-ok _ (Flow.csrrs-IsValid s w h)
  execute-IsValid Opcode.csrrw = Holds-ok _ (Flow.csrrw-IsValid s w h)
  execute-IsValid Opcode.csrrc = Holds-ok _ (Flow.csrrc-IsValid s w h)
  execute-IsValid Opcode.csrrsi = Holds-ok _ (Flow.csrrsi-IsValid s w h)
  execute-IsValid Opcode.csrrwi = Holds-ok _ (Flow.csrrwi-IsValid s w h)
  execute-IsValid Opcode.csrrci = Holds-ok _ (Flow.csrrci-IsValid s w h)
  execute-IsValid Opcode.amoadd_w = Memory.amoadd_w-IsValid env s w keeps h
  execute-IsValid Opcode.amoor_w = Memory.amoor_w-IsValid env s w keeps h
  execute-IsValid Opcode.amoand_w = Memory.amoand_w-IsValid env s w keeps h
  execute-IsValid Opcode.amoxor_w = Memory.amoxor_w-IsValid env s w keeps h
  execute-IsValid Opcode.amoswap_w = Memory.amoswap_w-IsValid env s w keeps h
  execute-IsValid Opcode.lr_w = Memory.lr-IsValid s w h
  execute-IsValid Opcode.sc_w = Memory.sc-IsValid s w h env keeps
  execute-IsValid Opcode.sfence_vma = Holds-ok s h
  execute-IsValid Opcode.mul = Holds-ok _ (Alu.mul-IsValid s w h)
  execute-IsValid Opcode.mulh = Holds-ok _ (Alu.mulh-IsValid s w h)
  execute-IsValid Opcode.mulhsu = Holds-ok _ (Alu.mulhsu-IsValid s w h)
  execute-IsValid Opcode.mulhu = Holds-ok _ (Alu.mulhu-IsValid s w h)
  execute-IsValid Opcode.div = Holds-ok _ (Alu.op_div-IsValid s w h)
  execute-IsValid Opcode.divu = Holds-ok _ (Alu.divu-IsValid s w h)
  execute-IsValid Opcode.rem = Holds-ok _ (Alu.rem-IsValid s w h)
  execute-IsValid Opcode.remu = Holds-ok _ (Alu.remu-IsValid s w h)

  matched-IsValid :
      (o : Option Opcode)
      → Holds IsValid
          (elim o [ none ↦ exit exit_illegal_instruction | some op ↦ execute env op s w ])
  matched-IsValid none = Holds-exit _
  matched-IsValid (some op) = execute-IsValid op

  dispatch-IsValid : Holds IsValid (dispatch env s w)
  unfolding dispatch
  dispatch-IsValid = matched-IsValid (first_match w chain)

shift_history-IsWord :
    (left i : ℕ) (history : ℕ → ℕ)
    → ((j : ℕ) → IsWord (history j))
    → (j : ℕ) → IsWord (shift_history left i history j)
unfolding shift_history
shift_history-IsWord zero i history h = h
shift_history-IsWord (suc left) i history h =
    shift_history-IsWord left (i + 1) _ (update-IsWord history i _ h (h (i + 1)))

history-IsValid :
    (s : State) (history : ℕ → ℕ)
    → IsValid s
    → ((j : ℕ) → IsWord (history j))
    → IsValid (record s { pc_history = history })
history-IsValid s history h fits = search

counter-IsValid :
    (s : State) (n : ℕ) → IsValid s → IsWord n → IsValid (record s { instruction_counter = n })
counter-IsValid s n h fits = search

take_pending-IsValid : (s : State) → IsValid s → IsValid (take_pending s)
unfolding take_pending
take_pending-IsValid s h =
    valid_if s.has_pending_exception _ _
      (Traps.raise_exception-IsValid s _ _ h h.pending_cause h.pending_value) h

finish_op-IsValid : (s : State) → IsValid s → IsValid (finish_op s)
unfolding finish_op
finish_op-IsValid s h =
    let shifted = history-IsValid s _ h (shift_history-IsWord 7 0 s.pc_history h.history) in
    let taken = take_pending-IsValid _ shifted in
    let recorded =
      history-IsValid _ _ taken (update-IsWord _ 7 _ taken.history taken.program_counter) in
    let counted =
      counter-IsValid _
        (add32
          (take_pending
            (record s { pc_history = shift_history 7 0 s.pc_history })).instruction_counter
          1)
        recorded (omega arith) in
    write_csr-IsValid _ _ _ (write_csr-IsValid _ _ _ counted counted.counter) counted.counter

fetched-IsValid :
    (env : Environment) (s : State) (target : Target)
    → KeepsValid env
    → IsValid s
    → Holds IsValid (elim target [
      | found pointer ↦ read_word_ram s.memory_map pointer >>= λ instruction.
          dispatch env s instruction >>= λ done. ok (finish_op done)
      | faulted ↦ ok (fetch_exception s)
      | no_range ↦ ok (fetch_exception s)
    ])
unfolding fetch_exception
fetched-IsValid env s (found pointer) keeps h =
    Holds-bind _ _ (read_word_ram-IsWord s.memory_map pointer h.bytes) (λ w k.
      Holds-bind _ _ (dispatch-IsValid env s w keeps h) (λ t l. Holds-ok _ (finish_op-IsValid t l)))
fetched-IsValid env s faulted keeps h =
    Holds-ok _ (Traps.raise_exception-IsValid s _ _ h h.pending_cause h.pending_value)
fetched-IsValid env s no_range keeps h =
    Holds-ok _ (Traps.raise_exception-IsValid s _ _ h h.pending_cause h.pending_value)

-- From a well-formed state, where every register, CSR, device register and RAM byte has the width
-- of its type, x0 is zero and the privilege is at most 3, one call of `emulate_op` that returns
-- leaves such a state, whatever the instruction and whether or not it traps. The code outside the
-- repository must do the same.
pub emulate_op-IsValid :
    (env : Environment) (s : State) → KeepsValid env → IsValid s → Holds IsValid (emulate_op env s)
unfolding emulate_op
emulate_op-IsValid env s keeps h =
    Holds-bind _ _ (get_memory_target-IsValid s s.pc fetch h.program_counter h)
      (λ r k. fetched-IsValid env _ (r.1) keeps (Flow.pc-IsValid (r.0) _ k (omega arith)))
