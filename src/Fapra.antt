-- ===== src/Fapra.antt =====
-- The FAPRA frontend (arch/fapra).
pub mod Tag
pub mod Arch
pub mod Isa
pub mod Translate
