-- ===== src/Mips.antt =====
-- The MIPS frontend (arch/mips).
pub mod Tag
