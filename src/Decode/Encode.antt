-- ===== src/Decode/Encode.antt =====
-- The instruction formats of the RISC-V manual, as an assembler writes them. An offset is the
-- 32-bit pattern of a signed number.
use emuriscv.Base.{ℕ, ◌+◌, ◌-◌, ◌*◌, ◌/◌, ◌%◌, ◌^◌, ◌≤◌, ◌<◌, ◌⊎◌}

-- A pattern that is the sign extension of its low `k + 1` bits.
abbrev pub FitsSigned : ℕ → ℕ → Type 0
FitsSigned k o = (o < 2 ^ k) ⊎ ((2 ^ 32 - 2 ^ k ≤ o) × (o < 2 ^ 32))

pub record Operands : Type 0 where
  pub opcode : ℕ
  pub rd : ℕ
  pub funct3 : ℕ
  pub rs1 : ℕ
  pub rs2 : ℕ

pub record IsOperands (f : Operands) : Type 0 where
  pub opcode_fits : f.opcode < 2 ^ 7
  pub rd_fits : f.rd < 2 ^ 5
  pub funct3_fits : f.funct3 < 2 ^ 3
  pub rs1_fits : f.rs1 < 2 ^ 5
  pub rs2_fits : f.rs2 < 2 ^ 5

abbrev pub i_type : Operands → ℕ → ℕ
i_type f o = f.opcode + f.rd * 2 ^ 7 + f.funct3 * 2 ^ 12 + f.rs1 * 2 ^ 15 + o % 2 ^ 12 * 2 ^ 20

abbrev pub s_type : Operands → ℕ → ℕ
s_type f o =
    f.opcode
    + o % 2 ^ 5 * 2 ^ 7
    + f.funct3 * 2 ^ 12
    + f.rs1 * 2 ^ 15
    + f.rs2 * 2 ^ 20
    + o / 2 ^ 5 % 2 ^ 7 * 2 ^ 25

abbrev pub b_type : Operands → ℕ → ℕ
b_type f o =
    f.opcode
    + o / 2 ^ 11 % 2 * 2 ^ 7
    + o / 2 % 2 ^ 4 * 2 ^ 8
    + f.funct3 * 2 ^ 12
    + f.rs1 * 2 ^ 15
    + f.rs2 * 2 ^ 20
    + o / 2 ^ 5 % 2 ^ 6 * 2 ^ 25
    + o / 2 ^ 12 % 2 * 2 ^ 31

abbrev pub j_type : Operands → ℕ → ℕ
j_type f o =
    f.opcode
    + f.rd * 2 ^ 7
    + o / 2 ^ 12 % 2 ^ 8 * 2 ^ 12
    + o / 2 ^ 11 % 2 * 2 ^ 20
    + o / 2 % 2 ^ 10 * 2 ^ 21
    + o / 2 ^ 20 % 2 * 2 ^ 31
