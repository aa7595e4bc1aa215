-- ===== src/X86/Opcode.antt =====
-- `arch_x86_opcode` of arch/x86/x86_isa.h, whose members x86_instr.h lists.
mod First
mod Second
mod Third
mod Fourth
pub use First.*
pub use Second.*
pub use Third.*
pub use Fourth.*
