-- ===== src/Tests.antt =====
-- Runs of the model on small machines, and the theorems applied to them.
pub mod Machine
pub mod Tagger
pub mod Decoder
pub mod Translator
pub mod Frontends
pub mod Runs
pub mod Mos
pub mod Emitted
