-- ===== src/Fapra/Isa.antt =====
-- The FAPRA processor, described without emitted code: what an instruction does to its registers,
-- memory and PC. The PC is written by JMP and CALL only; where else an instruction goes on, the
-- tags say.
use libcpu.Base.{
  ℕ, ◌+◌, ◌-◌, ◌*◌, ◌/◌, ◌%◌, ◌^◌, bit_and, bit_or, Option, none, some, List, [], ◌∷◌, ◌==◌,
  if◌then◌else◌, sign_extend,
}
use libcpu.Frontend.Value.Laws.{word4}
use libcpu.Frontend.Code.{Guest, update, update32}
use libcpu.Fapra.Tag.{opc, rd, ra, rb, simm, imm}

-- Words have 32 bits.
abbrev pub words : ℕ
words = 4294967296

abbrev pub set : ℕ → ℕ → Guest → Guest
set i v g = record g { gpr = update g.gpr i v }

abbrev pub effect_of : {A : Type 0} → ℕ → List (ℕ × A) → Option A
effect_of o [] = none
effect_of o (x ∷ xs) = if o == x.0 then some x.1 else effect_of o xs

module _ (ins pc : ℕ) (g : Guest) where
  abbrev pub d : ℕ
  d = g.gpr (rd ins)

  abbrev pub a : ℕ
  a = g.gpr (ra ins)

  abbrev pub b : ℕ
  b = g.gpr (rb ins)

  -- The address of a load or store, and the sum of ADDI.
  abbrev pub sum : ℕ
  sum = (a + simm ins % words) % words

  abbrev byte : ℕ → ℕ
  byte k = g.ram (sum + k)

  abbrev result : ℕ → Guest
  result v = set (rd ins) v g

  -- The guest after the instruction, for each opcode.
  abbrev pub effects : List (ℕ × Guest)
  effects =
      (0x10, result (word4 (g.ram sum) (byte 1) (byte 2) (byte 3)))
      ∷ (0x11, record g { ram = update32 g.ram sum d })
      ∷ (0x1c, result (g.ram sum))
      ∷ (0x1d, record g { ram = update g.ram sum (d % 256) })
      ∷ (0x20, result (d % 65536 + 65536 * imm ins))
      ∷ (0x21, result (d / 65536 * 65536 + imm ins))
      ∷ (0x30, record g { pc = a })
      ∷ (0x34, g)
      ∷ (0x35, g)
      ∷ (0x36, g)
      ∷ (0x32, g)
      ∷ (0x33, record (result ((pc + 4) % words)) { pc = a })
      ∷ (0x37, result ((pc + 4) % words))
      ∷ (0x0f, result sum)
      ∷ (0x00, result ((a + b) % words))
      ∷ (0x01, result ((a + (words - b)) % words))
      ∷ (0x02, result (bit_and a b))
      ∷ (0x03, result (bit_or a b))
      ∷ (0x05, result (words - 1 - a))
      ∷ (0x06, result (a * 2 ^ b % words))
      ∷ (0x07, result (sign_extend (32 - b) 32 (a / 2 ^ b)))
      ∷ (0x08, result (a * b % words))
      ∷ []

  -- `none` for SARI and the opcodes that are illegal.
  unfoldable pub execute : Option Guest
  execute = effect_of (opc ins) effects
