-- ===== src/Arm.antt =====
-- The ARM frontend (arch/arm).
pub mod Tag
