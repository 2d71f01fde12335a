-- ===== src/Decode/Immediates.antt =====
-- The decoders undo the instruction formats of the manual.
use emuriscv.Base.{ℕ, ◌+◌, ◌/◌, ◌%◌, ◌^◌, ◌<◌, ◌≡◌, arith, IsWord, bit_or}
use emuriscv.Bits.{bit_or-shifted, bit_or_comm, bit_or-fields, bit_or-zero}
use emuriscv.Decode.{get_i_imm, get_s_imm, get_b_imm, get_j_imm, i_imm, imm_sign}
use emuriscv.Decode.{get_rd, get_rs1, get_rs2}
use emuriscv.Decode.Fields.{bextr_lem, get_rd_lem, get_rs1_lem, get_rs2_lem}
use emuriscv.Decode.Encode.{FitsSigned, Operands, IsOperands, i_type, s_type, b_type, j_type}

extend_12 : (v : ℕ) → v < 2 ^ 12 → bit_or v 0xfffff000 ≡ 0xfffff000 + v
extend_12 v h = ground (arith, bit_or_comm v 0xfffff000, bit_or-shifted 12 0xfffff v h)

-- Bit 20 of a J-immediate is the sign itself, so it is set in both operands of the `|`.
extend_20 : (v : ℕ) → v < 2 ^ 20 → bit_or (v + 2 ^ 20) 0xfff00000 ≡ 0xfff00000 + v
extend_20 v h = ground (arith, bit_or-fields 20 1 0xfff v 0 h (omega arith), bit_or-zero v)

-- For every word, `get_i_imm` and the `imm` bit-field of `InstructionI` are one number.
pub get_i_imm-eq-i_imm : (w : ℕ) → IsWord w → get_i_imm w ≡ i_imm w
unfolding get_i_imm i_imm
get_i_imm-eq-i_imm w h =
    ground (arith, bextr_lem w 31 1, bextr_lem w 20 12, extend_12 (w / 2 ^ 20) (omega arith))

-- From an I-type instruction with an immediate that fits 12 signed bits, the decoder gets the
-- immediate and the registers back.
pub get_i_imm-i_type :
    (f : Operands) (o : ℕ)
    → IsOperands f
    → FitsSigned 11 o
    → (get_i_imm (i_type f o) ≡ o) × (get_rd (i_type f o) ≡ f.rd) × (get_rs1 (i_type f o) ≡ f.rs1)
unfolding get_i_imm
get_i_imm-i_type f o v h =
    let w = i_type f o in
    let imm : w / 2 ^ 20 % 2 ^ 12 ≡ o % 2 ^ 12 = omega arith in
    let sign : w / 2 ^ 31 % 2 ^ 1 ≡ o / 2 ^ 11 % 2 = omega arith in
    let rd : get_rd w ≡ f.rd = omega (arith, get_rd_lem w) in
    let rs1 : get_rs1 w ≡ f.rs1 = omega (arith, get_rs1_lem w) in
    (ground (arith, bextr_lem w 31 1, bextr_lem w 20 12, extend_12 (o % 2 ^ 12)), rd, rs1)

-- From an S-type instruction with an immediate that fits 12 signed bits, the decoder gets the
-- immediate and both source registers back.
pub get_s_imm-s_type :
    (f : Operands) (o : ℕ)
    → IsOperands f
    → FitsSigned 11 o
    → (get_s_imm (s_type f o) ≡ o) × (get_rs1 (s_type f o) ≡ f.rs1) × (get_rs2 (s_type f o) ≡ f.rs2)
unfolding get_s_imm
get_s_imm-s_type f o v h =
    let w = s_type f o in
    let low : w / 2 ^ 7 % 2 ^ 5 ≡ o % 2 ^ 5 = omega arith in
    let high : w / 2 ^ 25 % 2 ^ 7 ≡ o / 2 ^ 5 % 2 ^ 7 = omega arith in
    let sign : w / 2 ^ 31 % 2 ^ 1 ≡ o / 2 ^ 11 % 2 = omega arith in
    let e1 : get_rs1 w ≡ f.rs1 = omega (arith, get_rs1_lem w) in
    let e2 : get_rs2 w ≡ f.rs2 = omega (arith, get_rs2_lem w) in
    (
      ground (arith, bextr_lem w 31 1, bextr_lem w 7 5, bextr_lem w 25 7, extend_12 (o % 2 ^ 12)),
      e1,
      e2,
    )

-- From a B-type instruction with an even offset that fits 13 signed bits, the decoder gets the
-- offset and both source registers back.
pub get_b_imm-b_type :
    (f : Operands) (o : ℕ)
    → IsOperands f
    → FitsSigned 12 o
    → o % 2 ≡ 0
    → (get_b_imm (b_type f o) ≡ o) × (get_rs1 (b_type f o) ≡ f.rs1) × (get_rs2 (b_type f o) ≡ f.rs2)
unfolding get_b_imm imm_sign
get_b_imm-b_type f o v h even =
    let w = b_type f o in
    let low : w / 2 ^ 8 % 2 ^ 4 ≡ o / 2 % 2 ^ 4 = omega arith in
    let high : w / 2 ^ 25 % 2 ^ 6 ≡ o / 2 ^ 5 % 2 ^ 6 = omega arith in
    let bit_11 : w / 2 ^ 7 % 2 ^ 1 ≡ o / 2 ^ 11 % 2 = omega arith in
    let sign : w / 2 ^ 31 % 2 ^ 1 ≡ o / 2 ^ 12 % 2 = omega arith in
    let rs1 : get_rs1 w ≡ f.rs1 = omega (arith, get_rs1_lem w) in
    let rs2 : get_rs2 w ≡ f.rs2 = omega (arith, get_rs2_lem w) in
    let imm : get_b_imm w ≡ o =
      ground (arith, bextr_lem w 31 1, bextr_lem w 8 4, bextr_lem w 25 6, bextr_lem w 7 1) in
    (imm, rs1, rs2)

-- From a J-type instruction with an even offset that fits 21 signed bits, the decoder gets the
-- offset and the destination register back.
pub get_j_imm-j_type :
    (f : Operands) (o : ℕ)
    → IsOperands f
    → FitsSigned 20 o
    → o % 2 ≡ 0
    → (get_j_imm (j_type f o) ≡ o) × (get_rd (j_type f o) ≡ f.rd)
unfolding get_j_imm
get_j_imm-j_type f o v h even =
    let w = j_type f o in
    let low : w / 2 ^ 21 % 2 ^ 10 ≡ o / 2 % 2 ^ 10 = omega arith in
    let bit_11 : w / 2 ^ 20 % 2 ^ 1 ≡ o / 2 ^ 11 % 2 = omega arith in
    let high : w / 2 ^ 12 % 2 ^ 8 ≡ o / 2 ^ 12 % 2 ^ 8 = omega arith in
    let sign : w / 2 ^ 31 % 2 ^ 1 ≡ o / 2 ^ 20 % 2 = omega arith in
    let rd : get_rd w ≡ f.rd = omega (arith, get_rd_lem w) in
    (
      ground (
        arith,
        bextr_lem w 31 1,
        bextr_lem w 21 10,
        bextr_lem w 20 1,
        bextr_lem w 12 8,
        extend_20 (o % 2 ^ 20) (omega arith),
      ),
      rd,
    )

-- From an instruction of the manual's I-, S-, B- or J-type format, whose immediate fits the signed
-- field of that format and is even in the last two, the decoder gets the immediate back, and the
-- registers that the format has.
pub immediates_lem :
    (f : Operands) (i s b j : ℕ)
    → IsOperands f
    → FitsSigned 11 i
    → FitsSigned 11 s
    → FitsSigned 12 b
    → b % 2 ≡ 0
    → FitsSigned 20 j
    → j % 2 ≡ 0
    → ((get_i_imm (i_type f i) ≡ i) × (get_rd (i_type f i) ≡ f.rd) × (get_rs1 (i_type f i) ≡ f.rs1))
      × ((get_s_imm (s_type f s) ≡ s)
          × (get_rs1 (s_type f s) ≡ f.rs1)
          × (get_rs2 (s_type f s) ≡ f.rs2))
      × ((get_b_imm (b_type f b) ≡ b)
          × (get_rs1 (b_type f b) ≡ f.rs1)
          × (get_rs2 (b_type f b) ≡ f.rs2))
      × ((get_j_imm (j_type f j) ≡ j) × (get_rd (j_type f j) ≡ f.rd))
immediates_lem f i s b j v hi hs hb eb hj ej = (
  get_i_imm-i_type f i v hi,
  get_s_imm-s_type f s v hs,
  get_b_imm-b_type f b v hb eb,
  get_j_imm-j_type f j v hj ej,
)
