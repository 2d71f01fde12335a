-- ===== src/Decode/Fields.antt =====
-- The fields as arithmetic on the instruction word, in the form that the tactics read.
use emuriscv.Base.{ℕ, ◌/◌, ◌%◌, ◌^◌, ◌≡◌, arith, shr, IsWord}
use emuriscv.Bits.{bit_and_mask}
use emuriscv.Decode.{bextr, get_rd, get_rs1, get_rs2, get_csr_imm, i_imm}

pub bextr_lem : (src start len : ℕ) → bextr src start len ≡ src / 2 ^ start % 2 ^ len
unfolding bextr
bextr_lem src start len = bit_and_mask len (shr src start)

pub get_rd_lem : (x : ℕ) → get_rd x ≡ x / 2 ^ 7 % 2 ^ 5
unfolding get_rd
get_rd_lem x = bit_and_mask 5 (shr x 7)

pub get_rs1_lem : (x : ℕ) → get_rs1 x ≡ x / 2 ^ 15 % 2 ^ 5
unfolding get_rs1
get_rs1_lem x = bit_and_mask 5 (shr x 15)

pub get_rs2_lem : (x : ℕ) → get_rs2 x ≡ x / 2 ^ 20 % 2 ^ 5
unfolding get_rs2
get_rs2_lem x = bit_and_mask 5 (shr x 20)

pub get_csr_imm_lem : (x : ℕ) → get_csr_imm x ≡ x / 2 ^ 15 % 2 ^ 5
unfolding get_csr_imm
get_csr_imm_lem x = bit_and_mask 5 (shr x 15)

pub i_imm-IsWord : (w : ℕ) → IsWord (i_imm w)
unfolding i_imm
i_imm-IsWord w = ground arith

pub get_csr_imm-IsWord : (w : ℕ) → IsWord (get_csr_imm w)
get_csr_imm-IsWord w = omega (arith, get_csr_imm_lem w)
