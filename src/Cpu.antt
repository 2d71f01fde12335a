-- ===== src/Cpu.antt =====
-- The processor: one module for each group of instruction handlers, and `emulate_op`.
pub mod Alu
pub mod Branch
pub mod LoadStore
pub mod Mul
pub mod Atomic
pub mod Csr
pub mod Exception
pub mod Privileged
pub mod Opcode
pub mod Dispatch
pub mod Step
pub mod Valid
