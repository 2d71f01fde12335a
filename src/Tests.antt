-- ===== src/Tests.antt =====
-- Runs of the model at concrete inputs.
mod Machines
mod Walks
mod Memory
mod Instructions
mod Traps
mod Registers
mod Boot
mod Fdt
mod Disassembler
mod Monitor
mod Start
mod Sessions
mod StateFile
