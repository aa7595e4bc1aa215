-- ===== src/Tests/Machine.antt =====
-- A 6502 with a program of a few bytes, and x86 code.
use libcpu.Base.{
  ℕ, ◌<◌, ◌≡◌, refl, Bool, true, false, none, List, [], ◌∷◌, get_or, arith, zero, suc, ltb, ◌&&◌,
  &&-both,
}
use libcpu.Tag.Store.{Cpu, Tagging}
use libcpu.Tag.Arch.{Locals}
use libcpu.Tag.Start.{CacheFile}

-- Byte `i` of a list, and 0 elsewhere.
abbrev pub memory : List ℕ → ℕ → ℕ
memory bytes a = get_or bytes a 0

abbrev all_bytes : List ℕ → Bool
all_bytes [] = true
all_bytes (b ∷ bs) = ltb b 256 && all_bytes bs

pub memory-bytes : (bs : List ℕ) → all_bytes bs ≡ true → (a : ℕ) → memory bs a < 256
memory-bytes [] h a = omega arith
memory-bytes (b ∷ bs) h zero = ground arith
memory-bytes (b ∷ bs) h (suc a) = memory-bytes bs (&&-both _ _ h).1 a

-- 0: BNE +1, 2: RTS, 3: JSR $0002, 6: JMP $0002
abbrev pub program : List ℕ
program = 0xd0 ∷ 0x01 ∷ 0x60 ∷ 0x20 ∷ 0x02 ∷ 0x00 ∷ 0x4c ∷ 0x02 ∷ 0x00 ∷ []

abbrev pub ram_6502 : ℕ → ℕ
ram_6502 = memory program

pub ram_6502-bytes : (a : ℕ) → ram_6502 a < 256
ram_6502-bytes = memory-bytes program refl

abbrev pub cpu_6502 : Cpu
cpu_6502 = record {
  code_start = 0;
  code_end = 9;
  flags_codegen = 0;
  flags_debug = 0;
  flags_hint = 0;
}

abbrev pub fresh : Tagging
fresh = record { tag = none; tags_dirty = false; file_entries = none }

abbrev pub locals : Locals
locals = record { tag = 0; new_pc = 0; next_pc = 0 }

abbrev pub no_cache : CacheFile
no_cache = record { content = none; can_append = true }

-- 66: operand size, 0F 84 cw: JZ; 0F AF 44 20 10: IMUL r, [base+idx+disp8]
abbrev pub code_x86 : List ℕ
code_x86 = 0x66 ∷ 0x0f ∷ 0x84 ∷ 0x10 ∷ 0x00 ∷ 0x0f ∷ 0xaf ∷ 0x44 ∷ 0x20 ∷ 0x10 ∷ 0xff ∷ 0x25 ∷ []

abbrev pub ram_x86 : ℕ → ℕ
ram_x86 = memory code_x86

pub ram_x86-bytes : (a : ℕ) → ram_x86 a < 256
ram_x86-bytes = memory-bytes code_x86 refl
