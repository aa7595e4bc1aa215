-- ===== src/X86/Read.antt =====
-- The fetch functions of arch/x86/x86_decode.cpp: a value, and the address behind it. A signed
-- value is given as the bits of the `int32_t` that it is stored in.
use libcpu.Base.{ℕ, ◌+◌, ◌%◌, ◌|||◌, ◌<<<◌, sign_extend}
use libcpu.Tag.Flags.{addr_mod}

pub record Read : Type 0 where
  pub value : ℕ
  pub pc : ℕ

module _ (ram : ℕ → ℕ) where
  -- `RAM[pc + k]`, the address in 64 bits.
  abbrev byte_at : ℕ → ℕ → ℕ
  byte_at pc k = ram ((pc + k) % addr_mod)

  abbrev behind : ℕ → ℕ → ℕ
  behind pc k = (pc + k) % addr_mod

  abbrev pub read_u8 : ℕ → Read
  read_u8 pc = record { value = ram pc; pc = behind pc 1 }

  abbrev pub read_s8 : ℕ → Read
  read_s8 pc = record { value = sign_extend 8 32 (ram pc); pc = behind pc 1 }

  abbrev pub read_u16 : ℕ → Read
  read_u16 pc = record { value = (byte_at pc 1 <<< 8) ||| ram pc; pc = behind pc 2 }

  abbrev pub read_s16 : ℕ → Read
  read_s16 pc = record {
    value = sign_extend 16 32 ((byte_at pc 1 <<< 8) ||| ram pc);
    pc = behind pc 2;
  }

  abbrev pub read_u32 : ℕ → Read
  read_u32 pc = record {
    value = (byte_at pc 3 <<< 24) ||| (byte_at pc 2 <<< 16) ||| (byte_at pc 1 <<< 8) ||| ram pc;
    pc = behind pc 4;
  }

  abbrev pub read_s32 : ℕ → Read
  read_s32 pc = record {
    value = (byte_at pc 3 <<< 24) ||| (byte_at pc 2 <<< 16) ||| (byte_at pc 1 <<< 8) ||| ram pc;
    pc = behind pc 4;
  }
