-- ===== src/Cpu/Mul.antt =====
-- cpu_m.c: the multiplications and divisions. `M_OP` reads both sources and writes `rd`.
pub mod Products
pub mod Laws
pub mod Signed
use emuriscv.Base.{ℕ, ◌-◌, ◌*◌, ◌/◌, ◌%◌, ◌^◌, ◌==◌, ◌&&◌, if◌then◌else◌, u32}
use emuriscv.Base.{pos, ◌*ℤ◌, to_signed, of_signed, shr_ℤ, div_ℤ, rem_ℤ}
use emuriscv.Machine.{State, get_rs1_value, get_rs2_value, set_rd_value}

unfoldable pub mul32 : ℕ → ℕ → ℕ
mul32 a b = of_signed (to_signed a *ℤ to_signed b)

unfoldable pub mulh32 : ℕ → ℕ → ℕ
mulh32 a b = of_signed (shr_ℤ (to_signed a *ℤ to_signed b) 32)

unfoldable pub mulhsu32 : ℕ → ℕ → ℕ
mulhsu32 a b = of_signed (shr_ℤ (to_signed a *ℤ pos b) 32)

-- The product of two `int64_t` that hold `uint32_t` values. It wraps round where it does not fit,
-- which C leaves undefined; the shift then copies bit 63, and the cast drops the copies.
unfoldable pub mulhu32 : ℕ → ℕ → ℕ
mulhu32 a b = u32 (a * b % 2 ^ 64 / 2 ^ 32)

abbrev pub int_min : ℕ
int_min = 2 ^ 31

abbrev pub minus_one : ℕ
minus_one = 2 ^ 32 - 1

unfoldable pub div32 : ℕ → ℕ → ℕ
div32 a b =
    if b == 0
    then minus_one
    else if a == int_min && b == minus_one
    then a
    else of_signed (div_ℤ (to_signed a) (to_signed b))

unfoldable pub divu32 : ℕ → ℕ → ℕ
divu32 a b = if b == 0 then minus_one else a / b

unfoldable pub rem32 : ℕ → ℕ → ℕ
rem32 a b =
    if b == 0
    then a
    else if a == int_min && b == minus_one
    then 0
    else of_signed (rem_ℤ (to_signed a) (to_signed b))

unfoldable pub remu32 : ℕ → ℕ → ℕ
remu32 a b = if b == 0 then a else a % b

-- The macro `M_OP`.
unfoldable pub m_op : (ℕ → ℕ → ℕ) → State → ℕ → State
m_op op state instruction =
    set_rd_value state instruction
      (op (get_rs1_value state instruction) (get_rs2_value state instruction))

unfoldable pub mul : State → ℕ → State
unfolding m_op
mul state instruction = m_op mul32 state instruction

unfoldable pub mulh : State → ℕ → State
unfolding m_op
mulh state instruction = m_op mulh32 state instruction

unfoldable pub mulhu : State → ℕ → State
unfolding m_op
mulhu state instruction = m_op mulhu32 state instruction

unfoldable pub mulhsu : State → ℕ → State
unfolding m_op
mulhsu state instruction = m_op mulhsu32 state instruction

unfoldable pub rem : State → ℕ → State
unfolding m_op
rem state instruction = m_op rem32 state instruction

unfoldable pub remu : State → ℕ → State
unfolding m_op
remu state instruction = m_op remu32 state instruction

unfoldable pub op_div : State → ℕ → State
unfolding m_op
op_div state instruction = m_op div32 state instruction

unfoldable pub divu : State → ℕ → State
unfolding m_op
divu state instruction = m_op divu32 state instruction
