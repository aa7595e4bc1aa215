-- ===== src/M6502.antt =====
-- The 6502 frontend: arch/6502.
pub mod Isa
pub mod Tag
pub mod Arch
pub mod Translate
pub mod Mos
pub mod Step
