-- ===== src/M6502/Mos.antt =====
-- The 6502 as its manual has it, in binary mode, to compare arch/6502 with: a state of bytes and what
-- an instruction does to it. BRK, RTI and undocumented opcodes are not described.
use libcpu.Base.{
  ℕ, ◌+◌, ◌-◌, ◌*◌, ◌/◌, ◌%◌, bit_and, bit_or, bit_xor, Bool, ◌==◌, leb, ltb, if◌then◌else◌,
}
use libcpu.Frontend.Code.{update}
use libcpu.M6502.Isa.{Instr, AddMode, get_length}

-- The flags are 0 or 1.
pub record Mos : Type 0 where
  pub a : ℕ
  pub x : ℕ
  pub y : ℕ
  pub s : ℕ
  pub n : ℕ
  pub v : ℕ
  pub d : ℕ
  pub i : ℕ
  pub z : ℕ
  pub c : ℕ
  pub mem : ℕ → ℕ

abbrev pub bit_of : Bool → ℕ
bit_of b = if b then 1 else 0

-- A pointer lies in one page: the address of its second byte wraps around in it.
abbrev pub pointer : (ℕ → ℕ) → ℕ → ℕ
pointer mem p = mem p + 256 * mem (p / 256 * 256 + (p + 1) % 256)

abbrev pub set_nz : ℕ → Mos → Mos
set_nz r m = record m { n = r / 128; z = bit_of (r == 0) }

abbrev pub push : ℕ → Mos → Mos
push b m = record m { s = (m.s + 255) % 256; mem = update m.mem (256 + m.s) b }

-- Byte `k` behind the stack pointer.
abbrev pub pulled : ℕ → Mos → ℕ
pulled k m = m.mem (256 + (m.s + k) % 256)

abbrev pub pop : ℕ → Mos → Mos
pop k m = record m { s = (m.s + k) % 256 }

-- A + M + C, with the carry and the signed overflow.
abbrev pub add_with_carry : ℕ → Mos → Mos
add_with_carry b m =
    let sum = m.a + b + m.c in
    let r = sum % 256 in
    set_nz r (record m {
      a = r;
      c = sum / 256;
      v = bit_of (leb 128 (bit_and (bit_xor m.a r) (bit_xor b r)));
    })

abbrev pub compare_with : ℕ → ℕ → Mos → Mos
compare_with r b m = set_nz ((r + 256 - b) % 256) (record m { c = bit_of (leb b r) })

abbrev pub set_flags : ℕ → Mos → Mos
set_flags p m = record m {
  n = p / 128 % 2;
  v = p / 64 % 2;
  d = p / 8 % 2;
  i = p / 4 % 2;
  z = p / 2 % 2;
  c = p % 2;
}

-- The operand of an instruction with the bytes `lo` and `hi` behind its opcode.
module _ (lo hi : ℕ) where
  abbrev pub effective : AddMode → Mos → ℕ
  effective AddMode.abs m = lo + 256 * hi
  effective AddMode.absx m = (lo + 256 * hi + m.x) % 65536
  effective AddMode.absy m = (lo + 256 * hi + m.y) % 65536
  effective AddMode.indx m = pointer m.mem ((lo + m.x) % 256)
  effective AddMode.indy m = (pointer m.mem lo + m.y) % 65536
  effective AddMode.zp m = lo
  effective AddMode.zpx m = (lo + m.x) % 256
  effective AddMode.zpy m = (lo + m.y) % 256
  effective _ m = 0

  abbrev pub value_of : AddMode → Mos → ℕ
  value_of AddMode.acc m = m.a
  value_of AddMode.imm m = lo
  value_of other m = m.mem (effective other m)

  abbrev pub write_to : AddMode → ℕ → Mos → Mos
  write_to AddMode.acc b m = record m { a = b }
  write_to AddMode.imm b m = m
  write_to other b m = record m { mem = update m.mem (effective other m) b }

-- The instruction at `pc`, of a mode and with these bytes.
module _ (pc : ℕ) (mode : AddMode) (lo hi : ℕ) where
  abbrev value : Mos → ℕ
  value m = value_of lo hi mode m

  -- The carry that is shifted out, and the result.
  abbrev shifted : ℕ → ℕ → Mos → Mos
  shifted carry r m = set_nz r (write_to lo hi mode r (record m { c = carry }))

  -- What it does to registers, flags and memory.
  unfoldable pub execute : Instr → Mos → Mos
  execute Instr.clc m = record m { c = 0 }
  execute Instr.cld m = record m { d = 0 }
  execute Instr.cli m = record m { i = 0 }
  execute Instr.clv m = record m { v = 0 }
  execute Instr.sec m = record m { c = 1 }
  execute Instr.sed m = record m { d = 1 }
  execute Instr.sei m = record m { i = 1 }
  execute Instr.tax m = set_nz m.a (record m { x = m.a })
  execute Instr.tay m = set_nz m.a (record m { y = m.a })
  execute Instr.txa m = set_nz m.x (record m { a = m.x })
  execute Instr.tya m = set_nz m.y (record m { a = m.y })
  execute Instr.tsx m = set_nz m.s (record m { x = m.s })
  execute Instr.txs m = record m { s = m.x }
  execute Instr.lda m = set_nz (value m) (record m { a = value m })
  execute Instr.ldx m = set_nz (value m) (record m { x = value m })
  execute Instr.ldy m = set_nz (value m) (record m { y = value m })
  execute Instr.sta m = write_to lo hi mode m.a m
  execute Instr.stx m = write_to lo hi mode m.x m
  execute Instr.sty m = write_to lo hi mode m.y m
  execute Instr.pha m = push m.a m
  execute Instr.php m = push (m.n * 128 + m.v * 64 + 48 + m.d * 8 + m.i * 4 + m.z * 2 + m.c) m
  execute Instr.pla m = set_nz (pulled 1 m) (pop 1 (record m { a = pulled 1 m }))
  execute Instr.plp m = set_flags (pulled 1 m) (pop 1 m)
  execute Instr.asl m = shifted (value m / 128) (value m * 2 % 256) m
  execute Instr.lsr m = shifted (value m % 2) (value m / 2) m
  execute Instr.rol m = shifted (value m / 128) (value m * 2 % 256 + m.c) m
  execute Instr.ror m = shifted (value m % 2) (value m / 2 + 128 * m.c) m
  execute Instr.and m = let r = bit_and m.a (value m) in set_nz r (record m { a = r })
  execute Instr.ora m = let r = bit_or m.a (value m) in set_nz r (record m { a = r })
  execute Instr.eor m = let r = bit_xor m.a (value m) in set_nz r (record m { a = r })
  execute Instr.bit m = record m {
    n = value m / 128;
    v = value m / 64 % 2;
    z = bit_of (bit_and m.a (value m) == 0);
  }
  execute Instr.adc m = add_with_carry (value m) m
  execute Instr.sbc m = add_with_carry (255 - value m) m
  execute Instr.cmp m = compare_with m.a (value m) m
  execute Instr.cpx m = compare_with m.x (value m) m
  execute Instr.cpy m = compare_with m.y (value m) m
  execute Instr.inx m = let r = (m.x + 1) % 256 in set_nz r (record m { x = r })
  execute Instr.iny m = let r = (m.y + 1) % 256 in set_nz r (record m { y = r })
  execute Instr.dex m = let r = (m.x + 255) % 256 in set_nz r (record m { x = r })
  execute Instr.dey m = let r = (m.y + 255) % 256 in set_nz r (record m { y = r })
  execute Instr.inc m = let r = (value m + 1) % 256 in set_nz r (write_to lo hi mode r m)
  execute Instr.dec m = let r = (value m + 255) % 256 in set_nz r (write_to lo hi mode r m)
  execute Instr.jsr m = let back = (pc + 2) % 65536 in push (back % 256) (push (back / 256) m)
  execute Instr.rts m = pop 2 m
  execute _ m = m

  abbrev branch : Bool → ℕ
  branch taken =
      if taken
      then (if ltb lo 128 then pc + 2 + lo else pc + 2 + lo + 65536 - 256) % 65536
      else pc + get_length mode

  -- Where the program goes on.
  unfoldable pub next_pc : Instr → Mos → ℕ
  next_pc Instr.jmp m = elim mode [
    | AddMode.ind ↦ pointer m.mem (lo + 256 * hi)
    | _ ↦ lo + 256 * hi
  ]
  next_pc Instr.jsr m = lo + 256 * hi
  next_pc Instr.rts m = (pulled 1 m + 256 * pulled 2 m + 1) % 65536
  next_pc Instr.beq m = branch (m.z == 1)
  next_pc Instr.bne m = branch (m.z == 0)
  next_pc Instr.bcs m = branch (m.c == 1)
  next_pc Instr.bcc m = branch (m.c == 0)
  next_pc Instr.bmi m = branch (m.n == 1)
  next_pc Instr.bpl m = branch (m.n == 0)
  next_pc Instr.bvs m = branch (m.v == 1)
  next_pc Instr.bvc m = branch (m.v == 0)
  next_pc _ m = pc + get_length mode
