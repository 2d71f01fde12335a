-- ===== src/Cpu/Valid/Alu.antt =====
-- The results of the arithmetic instructions and of the CSR instructions are words.
use emuriscv.Base.{
  ℕ, ◌/◌, arith, IsWord, ℤ, pos, negsuc, of_signed, to_signed, Bool, true, false, if◌then◌else◌,
  ◌==◌, ◌&&◌, div_ℤ, rem_ℤ,
}
use native.Mathlib.Nat.{div-le_self}
use emuriscv.Bits.Bounds.{bit_and-lt, bit_or-lt, bit_xor-lt}
use emuriscv.Decode.Fields.{i_imm-IsWord}
use emuriscv.Machine.{State, get_rs1_value, get_rs2_value, set_rd_value}
use emuriscv.Machine.Valid.{
  word_if, IsValid, set_rd_value-IsValid, get_rs1_value-IsWord, get_rs2_value-IsWord,
}
use emuriscv.Cpu.Alu
use emuriscv.Cpu.Mul

pub of_signed-IsWord : (z : ℤ) → IsWord (of_signed z)
of_signed-IsWord (pos n) = omega arith
of_signed-IsWord (negsuc n) = omega arith

bit-IsWord : (b : Bool) → IsWord (if b then 1 else 0)
bit-IsWord true = omega arith
bit-IsWord false = omega arith

quotient-IsWord : (a b : ℕ) → IsWord a → IsWord (a / b)
quotient-IsWord a b h = omega (arith, div-le_self a b)

module _ (s : State) (w : ℕ) (h : IsValid s) where
  rs1 : IsWord (get_rs1_value s w)
  rs1 = get_rs1_value-IsWord s w h

  rs2 : IsWord (get_rs2_value s w)
  rs2 = get_rs2_value-IsWord s w h

  put : (v : ℕ) → IsWord v → IsValid (set_rd_value s w v)
  put v fits = set_rd_value-IsValid s w v h fits

  pub add-IsValid : IsValid (Alu.add s w)
  unfolding Alu.add
  add-IsValid = put _ (omega arith)

  pub addi-IsValid : IsValid (Alu.addi s w)
  unfolding Alu.addi
  addi-IsValid = put _ (omega arith)

  pub and-IsValid : IsValid (Alu.and s w)
  unfolding Alu.and
  and-IsValid = put _ (bit_and-lt 32 _ _ rs1)

  pub andi-IsValid : IsValid (Alu.andi s w)
  unfolding Alu.andi
  andi-IsValid = put _ (bit_and-lt 32 _ _ rs1)

  pub lui-IsValid : IsValid (Alu.lui s w)
  unfolding Alu.lui
  lui-IsValid = put _ (omega arith)

  pub or-IsValid : IsValid (Alu.or s w)
  unfolding Alu.or
  or-IsValid = put _ (bit_or-lt 32 _ _ rs1 rs2)

  pub ori-IsValid : IsValid (Alu.ori s w)
  unfolding Alu.ori
  ori-IsValid = put _ (bit_or-lt 32 _ _ rs1 (i_imm-IsWord w))

  pub sll-IsValid : IsValid (Alu.sll s w)
  unfolding Alu.sll
  sll-IsValid = put _ (omega arith)

  pub slli-IsValid : IsValid (Alu.slli s w)
  unfolding Alu.slli
  slli-IsValid = put _ (omega arith)

  pub slt-IsValid : IsValid (Alu.slt s w)
  unfolding Alu.slt
  slt-IsValid = put _ (bit-IsWord _)

  pub sltu-IsValid : IsValid (Alu.sltu s w)
  unfolding Alu.sltu
  sltu-IsValid = put _ (bit-IsWord _)

  pub slti-IsValid : IsValid (Alu.slti s w)
  unfolding Alu.slti
  slti-IsValid = put _ (bit-IsWord _)

  pub sltiu-IsValid : IsValid (Alu.sltiu s w)
  unfolding Alu.sltiu
  sltiu-IsValid = put _ (bit-IsWord _)

  pub sra-IsValid : IsValid (Alu.sra s w)
  unfolding Alu.sra
  sra-IsValid = put _ (of_signed-IsWord _)

  pub srai-IsValid : IsValid (Alu.srai s w)
  unfolding Alu.srai
  srai-IsValid = put _ (of_signed-IsWord _)

  pub srl-IsValid : IsValid (Alu.srl s w)
  unfolding Alu.srl
  srl-IsValid = put _ (quotient-IsWord _ _ rs1)

  pub srli-IsValid : IsValid (Alu.srli s w)
  unfolding Alu.srli
  srli-IsValid = put _ (quotient-IsWord _ _ rs1)

  pub sub-IsValid : IsValid (Alu.sub s w)
  unfolding Alu.sub
  sub-IsValid = put _ (omega arith)

  pub xor-IsValid : IsValid (Alu.xor s w)
  unfolding Alu.xor
  xor-IsValid = put _ (bit_xor-lt 32 _ _ rs1 rs2)

  pub xori-IsValid : IsValid (Alu.xori s w)
  unfolding Alu.xori
  xori-IsValid = put _ (bit_xor-lt 32 _ _ rs1 (i_imm-IsWord w))

  pub auipc-IsValid : IsValid (Alu.auipc s w)
  unfolding Alu.auipc
  auipc-IsValid = put _ (omega arith)

div32-IsWord : (a b : ℕ) → IsWord a → IsWord (Mul.div32 a b)
unfolding Mul.div32
div32-IsWord a b h = word_if (b == 0) _ _ (omega arith) (
    word_if (a == Mul.int_min && b == Mul.minus_one) _ _ h
      (of_signed-IsWord (div_ℤ (to_signed a) (to_signed b))))

rem32-IsWord : (a b : ℕ) → IsWord a → IsWord (Mul.rem32 a b)
unfolding Mul.rem32
rem32-IsWord a b h = word_if (b == 0) _ _ h (
    word_if (a == Mul.int_min && b == Mul.minus_one) _ _ (omega arith)
      (of_signed-IsWord (rem_ℤ (to_signed a) (to_signed b))))

divu32-IsWord : (a b : ℕ) → IsWord a → IsWord (Mul.divu32 a b)
unfolding Mul.divu32
divu32-IsWord a b h = word_if (b == 0) _ _ (omega arith) (quotient-IsWord a b h)

remu32-IsWord : (a b : ℕ) → IsWord a → IsWord b → IsWord (Mul.remu32 a b)
unfolding Mul.remu32
remu32-IsWord a b h k = ground arith

mulhu32-IsWord : (a b : ℕ) → IsWord (Mul.mulhu32 a b)
unfolding Mul.mulhu32
mulhu32-IsWord a b = omega arith

module _ (s : State) (w : ℕ) (h : IsValid s) where
  pub mul-IsValid : IsValid (Mul.mul s w)
  unfolding Mul.mul Mul.mul32
  mul-IsValid = put s w h _ (of_signed-IsWord _)

  pub mulh-IsValid : IsValid (Mul.mulh s w)
  unfolding Mul.mulh Mul.mulh32
  mulh-IsValid = put s w h _ (of_signed-IsWord _)

  pub mulhsu-IsValid : IsValid (Mul.mulhsu s w)
  unfolding Mul.mulhsu Mul.mulhsu32
  mulhsu-IsValid = put s w h _ (of_signed-IsWord _)

  pub mulhu-IsValid : IsValid (Mul.mulhu s w)
  unfolding Mul.mulhu
  mulhu-IsValid = put s w h _ (mulhu32-IsWord _ _)

  pub op_div-IsValid : IsValid (Mul.op_div s w)
  unfolding Mul.op_div
  op_div-IsValid = put s w h _ (div32-IsWord _ _ (rs1 s w h))

  pub divu-IsValid : IsValid (Mul.divu s w)
  unfolding Mul.divu
  divu-IsValid = put s w h _ (divu32-IsWord _ _ (rs1 s w h))

  pub rem-IsValid : IsValid (Mul.rem s w)
  unfolding Mul.rem
  rem-IsValid = put s w h _ (rem32-IsWord _ _ (rs1 s w h))

  pub remu-IsValid : IsValid (Mul.remu s w)
  unfolding Mul.remu
  remu-IsValid = put s w h _ (remu32-IsWord _ _ (rs1 s w h) (rs2 s w h))
