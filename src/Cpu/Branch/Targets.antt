-- ===== src/Cpu/Branch/Targets.antt =====
-- Where the branches and jumps go, for instructions as the manual encodes them.
use emuriscv.Base.{ℕ, ◌%◌, ◌≡◌, refl, ◌∙◌, arith, Bool, true, false, not, ◌==◌, ltb, leb}
use emuriscv.Base.{if◌then◌else◌, add32, sub32, to_signed, ltℤ, geℤ, IsWord}
use emuriscv.Decode.{get_rd, get_b_imm}
use emuriscv.Decode.Encode.{Operands, IsOperands, FitsSigned, i_type, b_type, j_type}
use emuriscv.Decode.Immediates.{get_b_imm-b_type, get_i_imm-i_type, get_j_imm-j_type}
use emuriscv.Machine.{State, get_reg, get_rs1_value, get_rs2_value, set_rd_value}
use emuriscv.Machine.Registers.{get_reg-set_reg}
use emuriscv.Cpu.Branch.{branch_if, beq, bne, blt, bge, bltu, bgeu, jal, jalr}

-- Where execution goes on after a branch at `pc` by `o`.
abbrev pub goes_to : ℕ → ℕ → Bool → ℕ
goes_to pc o taken = if taken then add32 pc o else add32 pc 4

offset_from_next : (pc o : ℕ) → IsWord o → add32 (add32 pc 4) (sub32 o 4) ≡ add32 pc o
offset_from_next pc o h = omega arith

branch_if_lem :
    (s : State) (w pc o : ℕ) (taken : Bool)
    → IsWord o
    → s.pc ≡ add32 pc 4
    → get_b_imm w ≡ o
    → (branch_if taken s w).pc ≡ goes_to pc o taken
unfolding branch_if
branch_if_lem s w pc o true fits at imm = rw (at, imm) (offset_from_next pc o fits)
branch_if_lem s w pc o false fits at imm = at

-- Each branch at `pc`, encoded with the even offset `o`, goes to `pc + o` where the comparison of
-- its two registers holds, and to the next instruction where it does not.
pub branches_lem :
    (s : State) (f : Operands) (pc o : ℕ)
    → IsOperands f
    → FitsSigned 12 o
    → o % 2 ≡ 0
    → s.pc ≡ add32 pc 4
    → let w = b_type f o in
      let a = get_reg s f.rs1 in
      let b = get_reg s f.rs2 in
      ((beq s w).pc ≡ goes_to pc o (a == b))
      × ((bne s w).pc ≡ goes_to pc o (not (a == b)))
      × ((bltu s w).pc ≡ goes_to pc o (ltb a b))
      × ((bgeu s w).pc ≡ goes_to pc o (leb b a))
      × ((blt s w).pc ≡ goes_to pc o (ltℤ (to_signed a) (to_signed b)))
      × ((bge s w).pc ≡ goes_to pc o (geℤ (to_signed a) (to_signed b)))
unfolding beq bne bltu bgeu blt bge get_rs1_value get_rs2_value
branches_lem s f pc o fields fits even at =
    let (imm, rs1, rs2) = get_b_imm-b_type f o fields fits even in
    let go : (taken : Bool) → (branch_if taken s (b_type f o)).pc ≡ goes_to pc o taken =
      λ taken. branch_if_lem s (b_type f o) pc o taken (omega (arith, fits)) at imm in
    (
      rw (rs1, rs2) (go _),
      rw (rs1, rs2) (go _),
      rw (rs1, rs2) (go _),
      rw (rs1, rs2) (go _),
      rw (rs1, rs2) (go _),
      rw (rs1, rs2) (go _),
    )

jal_link :
    (s : State) (w j : ℕ)
    → get_reg (jal s w) j ≡ (if get_rd w == 0 then s.x j else if j == get_rd w then s.pc else s.x j)
unfolding jal set_rd_value get_reg
jal_link s w j = get_reg-set_reg s (get_rd w) s.pc j

jalr_link :
    (s : State) (w j : ℕ)
    → get_reg (jalr s w) j
      ≡ (if get_rd w == 0 then s.x j else if j == get_rd w then s.pc else s.x j)
unfolding jalr set_rd_value get_reg
jalr_link s w j = get_reg-set_reg s (get_rd w) s.pc j

-- `jal` at `pc`, encoded with the even offset `o`, goes to `pc + o`; `jalr`, with the offset `i`,
-- goes to the value of `rs1` before the instruction plus `i`, with no bit cleared. Both leave the
-- address of the next instruction in `rd`, if that is not x0.
pub jumps_lem :
    (s : State) (f : Operands) (pc o i j : ℕ)
    → IsOperands f
    → FitsSigned 20 o
    → o % 2 ≡ 0
    → FitsSigned 11 i
    → s.pc ≡ add32 pc 4
    → let link = if f.rd == 0 then s.x j else if j == f.rd then add32 pc 4 else s.x j in
      ((jal s (j_type f o)).pc ≡ add32 pc o)
      × (get_reg (jal s (j_type f o)) j ≡ link)
      × ((jalr s (i_type f i)).pc ≡ add32 (get_reg s f.rs1) i)
      × (get_reg (jalr s (i_type f i)) j ≡ link)
unfolding jal jalr get_rs1_value set_rd_value get_reg
jumps_lem s f pc o i j fields fits even ifits at =
    let (imm, rd) = get_j_imm-j_type f o fields fits even in
    let (iimm, ird, irs1) = get_i_imm-i_type f i fields ifits in
    (
      rw (imm, at) (omega arith),
      jal_link s (j_type f o) j ∙ rw (rd, at) refl,
      rw (iimm, irs1) refl,
      jalr_link s (i_type f i) j ∙ rw (ird, at) refl,
    )
