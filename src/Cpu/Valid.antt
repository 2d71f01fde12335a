-- ===== src/Cpu/Valid.antt =====
-- Every instruction keeps the state well-formed.
pub mod Alu
pub mod Flow
pub mod Memory
pub mod Traps
pub mod Step
