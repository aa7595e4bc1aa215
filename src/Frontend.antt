-- ===== src/Frontend.antt =====
-- What frontends share (libcpu/frontend.cpp, libcpu/frontend.h): here the reads of host memory; the
-- children model the code that the emitter functions build.
pub mod Value
pub mod Code
pub mod Registers
pub mod Arith
pub mod Flags
pub mod Memory
use libcpu.Base.{ℕ, ◌+◌, ◌%◌, ◌|||◌, ◌<<<◌}
use libcpu.Tag.Flags.{addr_mod}

-- Byte `k` behind an address, in the 64 bits of `addr_t`.
abbrev pub byte_at : (ℕ → ℕ) → ℕ → ℕ → ℕ
byte_at ram a k = ram ((a + k) % addr_mod)

unfoldable pub ram32be : (ℕ → ℕ) → ℕ → ℕ
ram32be ram a =
    (byte_at ram a 0 <<< 24)
    ||| (byte_at ram a 1 <<< 16)
    ||| (byte_at ram a 2 <<< 8)
    ||| byte_at ram a 3

unfoldable pub ram32le : (ℕ → ℕ) → ℕ → ℕ
ram32le ram a =
    byte_at ram a 0
    ||| (byte_at ram a 1 <<< 8)
    ||| (byte_at ram a 2 <<< 16)
    ||| (byte_at ram a 3 <<< 24)
