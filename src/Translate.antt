-- ===== src/Translate.antt =====
-- The translation of tagged code into basic blocks (libcpu/translate.cpp, libcpu/translate_all.cpp,
-- libcpu/translate_singlestep.cpp, libcpu/translate_singlestep_bb.cpp).
pub mod Builder
pub mod Instr
pub mod All
pub mod Meaning
pub mod Guest
pub mod Last
pub mod Refines
pub mod Alike
pub mod Total
pub mod Native
pub mod Function
pub mod Runs
pub mod Tagged
pub mod Frontends
pub mod Whole
pub mod SingleStep
