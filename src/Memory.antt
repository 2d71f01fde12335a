-- ===== src/Memory.antt =====
-- Memory: the map of ranges, the bytes, address translation, and the accesses of the CPU.
pub mod Map
pub mod Valid
pub mod Ram
pub mod Translate
pub mod Access
