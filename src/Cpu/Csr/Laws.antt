-- ===== src/Cpu/Csr/Laws.antt =====
-- What the register and the CSR hold after each of the CSR instructions.
use emuriscv.Base.{ℕ, ◌≡◌, refl, arith, bit_and, bit_or, ◌==◌, if◌then◌else◌}
use emuriscv.Base.{not32, update, Bool-cases, inl, inr, true, IsWord}
use emuriscv.Bits.{bit_and-ones}
use emuriscv.Decode.{get_rd, get_rs1, get_i_imm_unsigned, get_csr_imm}
use emuriscv.Machine.{State, read_csr, write_csr, get_reg, set_reg, get_rs1_value, set_rd_value}
use emuriscv.Cpu.Csr.{csrrw, csrrs, csrrc, csrrwi, csrrci, read_into_rd}

-- Register `j` once `v` is in `rd`.
abbrev pub reg_after : State → ℕ → ℕ → ℕ → ℕ
reg_after s w v j = if get_rd w == 0 then s.x j else if j == get_rd w then v else s.x j

==_self : (a : ℕ) → (a == a) ≡ true
==_self a = ground arith

update_same : (f : ℕ → ℕ) (i v j : ℕ) → v ≡ f i → update f i v j ≡ f j
update_same f i v j h = ground arith

clear_none : (a v : ℕ) → IsWord a → (v == 0) ≡ true → bit_and a (not32 v) ≡ a
clear_none a v fits zero_value = let e : v ≡ 0 = ground arith in rw e (bit_and-ones 32 a fits)

csr-read_into_rd : (s : State) (w csr : ℕ) → (read_into_rd s w csr).csr ≡ s.csr
unfolding read_into_rd set_rd_value set_reg
csr-read_into_rd s w csr = elim (Bool-cases (get_rd w == 0)) [
  | inl e ↦ rw e refl
  | inr e ↦ rw e refl
]

-- `csrrw` puts the old value of the CSR into `rd` and the old value of `rs1` into the CSR, also
-- where both are one register.
pub csrrw_lem :
    (s : State) (w j : ℕ)
    → (get_reg (csrrw s w) j ≡ reg_after s w (read_csr s (get_i_imm_unsigned w)) j)
      × (read_csr (csrrw s w) (get_i_imm_unsigned w) ≡ get_rs1_value s w)
unfolding csrrw get_reg read_csr write_csr set_rd_value get_rs1_value set_reg
csrrw_lem s w j = elim (Bool-cases (get_rd w == 0)) [
  | inl e ↦ (rw e refl, rw (e, ==_self (get_i_imm_unsigned w)) refl)
  | inr e ↦ (rw e refl, rw (e, ==_self (get_i_imm_unsigned w)) refl)
]

-- `csrrs` puts the old value of the CSR into `rd` and sets the bits of `rs1` in the CSR, as `rs1`
-- is once `rd` is written: where both are one register other than x0, that is the old value of the
-- CSR.
pub csrrs_lem :
    (s : State) (w j : ℕ)
    → (get_reg (csrrs s w) j ≡ reg_after s w (read_csr s (get_i_imm_unsigned w)) j)
      × (read_csr (csrrs s w) (get_i_imm_unsigned w)
          ≡ bit_or
              (read_csr s (get_i_imm_unsigned w))
              (reg_after s w (read_csr s (get_i_imm_unsigned w)) (get_rs1 w)))
unfolding csrrs get_reg read_csr write_csr set_rd_value get_rs1_value set_reg
csrrs_lem s w j = elim (Bool-cases (get_rd w == 0)) [
  | inl e ↦ (rw e refl, rw (e, ==_self (get_i_imm_unsigned w)) refl)
  | inr e ↦ (rw e refl, rw (e, ==_self (get_i_imm_unsigned w)) refl)
]

-- `csrrc` puts the old value of the CSR into `rd` and clears the bits of `rs1` in the CSR, as `rs1`
-- is once `rd` is written: where both are one register other than x0, that is the old value of the
-- CSR.
pub csrrc_lem :
    (s : State) (w j : ℕ)
    → (get_reg (csrrc s w) j ≡ reg_after s w (read_csr s (get_i_imm_unsigned w)) j)
      × (read_csr (csrrc s w) (get_i_imm_unsigned w)
          ≡ bit_and
              (read_csr s (get_i_imm_unsigned w))
              (not32 (reg_after s w (read_csr s (get_i_imm_unsigned w)) (get_rs1 w))))
unfolding csrrc read_into_rd get_reg read_csr write_csr set_rd_value get_rs1_value set_reg
csrrc_lem s w j = elim (Bool-cases (get_rd w == 0)) [
  | inl e ↦ (rw e refl, rw (e, ==_self (get_i_imm_unsigned w)) refl)
  | inr e ↦ (rw e refl, rw (e, ==_self (get_i_imm_unsigned w)) refl)
]

-- `csrrw`, `csrrs` and `csrrc` put the old value of the CSR into `rd` and leave the other registers.
-- `csrrw` puts the old value of `rs1` into the CSR, also where `rs1` and `rd` are one register;
-- `csrrs` sets and `csrrc` clears the bits of `rs1` in it, as `rs1` is once `rd` is written.
pub csr_instructions_lem :
    (s : State) (w j : ℕ)
    → let old = read_csr s (get_i_imm_unsigned w) in
      let rs1_after = reg_after s w old (get_rs1 w) in
      (get_reg (csrrw s w) j ≡ reg_after s w old j)
      × (read_csr (csrrw s w) (get_i_imm_unsigned w) ≡ get_rs1_value s w)
      × (get_reg (csrrs s w) j ≡ reg_after s w old j)
      × (read_csr (csrrs s w) (get_i_imm_unsigned w) ≡ bit_or old rs1_after)
      × (get_reg (csrrc s w) j ≡ reg_after s w old j)
      × (read_csr (csrrc s w) (get_i_imm_unsigned w) ≡ bit_and old (not32 rs1_after))
csr_instructions_lem s w j =
    let (rd_w, csr_w) = csrrw_lem s w j in
    let (rd_s, csr_s) = csrrs_lem s w j in
    let (rd_c, csr_c) = csrrc_lem s w j in (rd_w, csr_w, rd_s, csr_s, rd_c, csr_c)

-- Where the CSR of the instruction holds a word, `csrrwi` leaves every CSR and every register with
-- the value that `csrrci` leaves there.
pub csrrwi-eq-csrrci :
    (s : State) (w i : ℕ)
    → IsWord (read_csr s (get_i_imm_unsigned w))
    → (read_csr (csrrwi s w) i ≡ read_csr (csrrci s w) i)
      × (get_reg (csrrwi s w) i ≡ get_reg (csrrci s w) i)
unfolding csrrwi csrrci read_csr write_csr get_reg
csrrwi-eq-csrrci s w i fits = elim (Bool-cases (get_csr_imm w == 0)) [
  | inl e ↦
      let kept = csr-read_into_rd s w (get_i_imm_unsigned w) in
      let same : bit_and ((read_into_rd s w (get_i_imm_unsigned w)).csr (get_i_imm_unsigned w))
            (not32 (get_csr_imm w))
          ≡ (read_into_rd s w (get_i_imm_unsigned w)).csr (get_i_imm_unsigned w) =
        clear_none _ (get_csr_imm w) (rw kept fits) e in
      (rw e (update_same ((read_into_rd s w (get_i_imm_unsigned w)).csr) _ _ i same), rw e refl)
  | inr e ↦ (rw e refl, rw e refl)
]
