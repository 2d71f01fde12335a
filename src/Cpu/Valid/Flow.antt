-- ===== src/Cpu/Valid/Flow.antt =====
-- The branches, the jumps and the CSR instructions.
use emuriscv.Base.{ℕ, arith, bit_and, IsWord, Bool, true, false, ◌==◌}
use emuriscv.Bits.Bounds.{bit_and-lt, bit_or-lt}
use emuriscv.Decode.{get_csr_imm, get_i_imm_unsigned, get_rd}
use emuriscv.Decode.Fields.{get_csr_imm-IsWord}
use emuriscv.Machine.{State, set_rd_value, read_csr, write_csr}
use emuriscv.Machine.Valid.{
  valid_if, IsValid, set_rd_value-IsValid, write_csr-IsValid, get_rs1_value-IsWord, read_csr-IsWord,
}
use emuriscv.Cpu.Branch.{branch_if, beq, bge, bgeu, blt, bltu, bne, jal, jalr}
use emuriscv.Cpu.Csr.{csrrs, csrrw, csrrc, csrrwi, csrrsi, csrrci, read_into_rd}

pub pc-IsValid : (s : State) (pc : ℕ) → IsValid s → IsWord pc → IsValid (record s { pc = pc })
pc-IsValid s pc h fits = search

branch_if-IsValid : (taken : Bool) (s : State) (w : ℕ) → IsValid s → IsValid (branch_if taken s w)
unfolding branch_if
branch_if-IsValid true s w h = pc-IsValid s _ h (omega arith)
branch_if-IsValid false s w h = h

module _ (s : State) (w : ℕ) (h : IsValid s) where
  pub beq-IsValid : IsValid (beq s w)
  unfolding beq
  beq-IsValid = branch_if-IsValid _ s w h

  pub bge-IsValid : IsValid (bge s w)
  unfolding bge
  bge-IsValid = branch_if-IsValid _ s w h

  pub bgeu-IsValid : IsValid (bgeu s w)
  unfolding bgeu
  bgeu-IsValid = branch_if-IsValid _ s w h

  pub blt-IsValid : IsValid (blt s w)
  unfolding blt
  blt-IsValid = branch_if-IsValid _ s w h

  pub bltu-IsValid : IsValid (bltu s w)
  unfolding bltu
  bltu-IsValid = branch_if-IsValid _ s w h

  pub bne-IsValid : IsValid (bne s w)
  unfolding bne
  bne-IsValid = branch_if-IsValid _ s w h

  linked : IsValid (set_rd_value s w s.pc)
  linked = set_rd_value-IsValid s w s.pc h h.program_counter

  pub jal-IsValid : IsValid (jal s w)
  unfolding jal
  jal-IsValid = pc-IsValid _ _ linked (omega arith)

  pub jalr-IsValid : IsValid (jalr s w)
  unfolding jalr
  jalr-IsValid = pc-IsValid _ _ linked (omega arith)

module _ (s : State) (w : ℕ) (h : IsValid s) where
  read_into_rd-IsValid : (csr : ℕ) → IsValid (read_into_rd s w csr)
  unfolding read_into_rd
  read_into_rd-IsValid csr =
      valid_if (get_rd w == 0) _ _ h (set_rd_value-IsValid s w _ h (read_csr-IsWord s csr h))

  old_value-IsValid : (csr : ℕ) → IsValid (set_rd_value s w (read_csr s csr))
  old_value-IsValid csr = set_rd_value-IsValid s w _ h (read_csr-IsWord s csr h)

  pub csrrs-IsValid : IsValid (csrrs s w)
  unfolding csrrs
  csrrs-IsValid =
      let read = old_value-IsValid (get_i_imm_unsigned w) in
      write_csr-IsValid _ _ _ read
        (bit_or-lt 32 _ _ (read_csr-IsWord _ _ read) (get_rs1_value-IsWord _ w read))

  pub csrrw-IsValid : IsValid (csrrw s w)
  unfolding csrrw
  csrrw-IsValid =
      let csr = get_i_imm_unsigned w in
      let written = write_csr-IsValid s csr _ h (get_rs1_value-IsWord s w h) in
      valid_if (get_rd w == 0) _ _ written
        (set_rd_value-IsValid _ w _ written (read_csr-IsWord s csr h))

  cleared :
      (t : State) (csr v : ℕ) → IsValid t → IsValid (write_csr t csr (bit_and (read_csr t csr) v))
  cleared t csr v k = write_csr-IsValid t csr _ k (bit_and-lt 32 _ _ (read_csr-IsWord t csr k))

  pub csrrc-IsValid : IsValid (csrrc s w)
  unfolding csrrc
  csrrc-IsValid = cleared _ _ _ (read_into_rd-IsValid (get_i_imm_unsigned w))

  pub csrrwi-IsValid : IsValid (csrrwi s w)
  unfolding csrrwi
  csrrwi-IsValid = cleared _ _ _ (read_into_rd-IsValid (get_i_imm_unsigned w))

  pub csrrsi-IsValid : IsValid (csrrsi s w)
  unfolding csrrsi read_csr
  csrrsi-IsValid =
      let read = old_value-IsValid (get_i_imm_unsigned w) in
      valid_if (get_csr_imm w == 0) _ _ read (
        write_csr-IsValid _ _ _ read
          (bit_or-lt 32 _ _ (read_csr-IsWord _ (get_i_imm_unsigned w) read) (get_csr_imm-IsWord w)))

  pub csrrci-IsValid : IsValid (csrrci s w)
  unfolding csrrci
  csrrci-IsValid =
      let read = read_into_rd-IsValid (get_i_imm_unsigned w) in
      valid_if (get_csr_imm w == 0) _ _ read (cleared _ _ _ read)
