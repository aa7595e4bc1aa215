-- ===== src/X86.antt =====
-- The x86 frontend: arch/x86.
pub mod Opcode
pub mod Flags
pub mod AddrMod
pub mod Field
pub mod Tables
pub mod Instr
pub mod Read
pub mod ModRm
pub mod Data
pub mod Operands
pub mod Decode
pub mod Tag
