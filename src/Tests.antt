-- ===== src/Tests.antt =====
-- Runs of the model at concrete inputs.
pub mod Cache
pub mod Tlb
pub mod Cpu
pub mod Memory
pub mod Regs
pub mod Instr
pub mod Flow
pub mod Shifts
pub mod Vector
