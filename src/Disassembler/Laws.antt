-- ===== src/Disassembler/Laws.antt =====
-- The line that is printed is that of the instruction that runs.
use emuriscv.Base.{
  ℕ, ◌≡◌, refl, sym, ap, ◌∙◌, arith, inl, inr, ◌⊎◌, Bool, true, false, ◌==◌, add32, List, [], ◌∷◌,
  Option, none, some, if◌then◌else◌, exit,
}
use emuriscv.Decode.{get_b_imm, get_j_imm, get_rd, get_rs1, get_rs2}
use emuriscv.Machine.{State, Environment}
use emuriscv.Cpu.Opcode.{Opcode}
use emuriscv.Cpu.Dispatch.{first_match, chain, dispatch, execute, exit_illegal_instruction}
use emuriscv.Cpu.Branch.{branch_if, jal}
use emuriscv.Disassembler.{disassembler_chain, print_op, disassemble_op}
use emuriscv.Disassembler.Print.{Argument, number, Line, line}
use emuriscv.Disassembler.Flow.{
  print_beq, print_bne, print_blt, print_bge, print_bltu, print_bgeu, print_jal,
}

chain_same : disassembler_chain ≡ chain
unfolding disassembler_chain chain
chain_same = refl

option_cases : {A : Type 0} (o : Option A) → (o ≡ none) ⊎ ((a : A) × (o ≡ some a))
option_cases none = inl refl
option_cases (some a) = inr (a, refl)

-- For every word, either the handler of some instruction runs and its line is printed, or the
-- process ends with the code of an illegal instruction and the line says that the instruction is
-- unknown.
pub disassemble_op-dispatch :
    (env : Environment) (s : State) (w offset : ℕ)
    → ((op : Opcode) × (dispatch env s w ≡ execute env op s w)
        × (disassemble_op w offset ≡ print_op op offset w))
      ⊎ ((dispatch env s w ≡ exit exit_illegal_instruction)
          × (disassemble_op w offset ≡ line "Unknown instruction: %8X \n" (number w ∷ [])))
unfolding dispatch disassemble_op
disassemble_op-dispatch env s w offset =
    let same : first_match w disassembler_chain ≡ first_match w chain =
      ap (first_match w) chain_same in
    elim (option_cases (first_match w chain)) [
      | inl e ↦ inr (rw (e, dispatch) refl, rw (same ∙ e, disassemble_op) refl)
      | inr (op, e) ↦ inl (op, rw (e, dispatch) refl, rw (same ∙ e, disassemble_op) refl)
    ]

-- The last value after the format.
abbrev pub last_argument : List Argument → Option Argument
last_argument [] = none
last_argument (a ∷ []) = some a
last_argument (a ∷ b ∷ rest) = last_argument (b ∷ rest)

shown_if :
    (b : Bool) (target : ℕ) (l m : Line)
    → last_argument l.arguments ≡ some (number target)
    → last_argument m.arguments ≡ some (number target)
    → last_argument ((if b then l else m).arguments) ≡ some (number target)
shown_if true target l m h k = h
shown_if false target l m h k = k

module _ (pc w : ℕ) where
  shown_beq : last_argument ((print_beq pc w).arguments) ≡ some (number (add32 (get_b_imm w) pc))
  unfolding print_beq
  shown_beq = shown_if (get_rs2 w == 0) _ _ _ refl refl

  shown_bne : last_argument ((print_bne pc w).arguments) ≡ some (number (add32 (get_b_imm w) pc))
  unfolding print_bne
  shown_bne = shown_if (get_rs2 w == 0) _ _ _ refl refl

  shown_blt : last_argument ((print_blt pc w).arguments) ≡ some (number (add32 (get_b_imm w) pc))
  unfolding print_blt
  shown_blt = shown_if (get_rs2 w == 0) _ _ _ refl (shown_if (get_rs1 w == 0) _ _ _ refl refl)

  shown_bge : last_argument ((print_bge pc w).arguments) ≡ some (number (add32 (get_b_imm w) pc))
  unfolding print_bge
  shown_bge = shown_if (get_rs2 w == 0) _ _ _ refl (shown_if (get_rs1 w == 0) _ _ _ refl refl)

  shown_bltu : last_argument ((print_bltu pc w).arguments) ≡ some (number (add32 (get_b_imm w) pc))
  unfolding print_bltu
  shown_bltu = refl

  shown_bgeu : last_argument ((print_bgeu pc w).arguments) ≡ some (number (add32 (get_b_imm w) pc))
  unfolding print_bgeu
  shown_bgeu = refl

  shown_jal : last_argument ((print_jal pc w).arguments) ≡ some (number (add32 (get_j_imm w) pc))
  unfolding print_jal
  shown_jal = shown_if (get_rd w == 0) _ _ _ refl refl

-- The state as a handler finds it: `pc` is past the instruction.
abbrev pub advanced : State → State
advanced s = record s { pc = add32 s.pc 4 }

branch_pc : (s : State) (w : ℕ) → (branch_if true (advanced s) w).pc ≡ add32 (get_b_imm w) s.pc
unfolding branch_if
branch_pc s w = omega arith

jal_pc : (s : State) (w : ℕ) → (jal (advanced s) w).pc ≡ add32 (get_j_imm w) s.pc
unfolding jal
jal_pc s w = omega arith

-- The address at the end of the line of a branch or of `jal`, shown for the instruction's address,
-- is where the emulator goes: after the branch if it is taken, and after the jump.
pub print_op-target :
    (s : State) (w : ℕ)
    → let branch = some (number ((branch_if true (advanced s) w).pc)) in
      let shown : Opcode → Option Argument = λ op. last_argument ((print_op op s.pc w).arguments) in
      (shown Opcode.beq ≡ branch)
      × (shown Opcode.bne ≡ branch)
      × (shown Opcode.blt ≡ branch)
      × (shown Opcode.bge ≡ branch)
      × (shown Opcode.bltu ≡ branch)
      × (shown Opcode.bgeu ≡ branch)
      × (shown Opcode.jal ≡ some (number ((jal (advanced s) w).pc)))
unfolding print_op
print_op-target s w =
    let b = ap (λ n. some (number n)) (sym (branch_pc s w)) in
    let j = ap (λ n. some (number n)) (sym (jal_pc s w)) in
    (
      shown_beq s.pc w ∙ b,
      shown_bne s.pc w ∙ b,
      shown_blt s.pc w ∙ b,
      shown_bge s.pc w ∙ b,
      shown_bltu s.pc w ∙ b,
      shown_bgeu s.pc w ∙ b,
      shown_jal s.pc w ∙ j,
    )
