-- ===== src/Memory/Valid.antt =====
-- The accesses of the CPU keep the state well-formed, and what they read is a word.
pub mod Ram
pub mod Translate
pub mod Devices
pub mod Access
