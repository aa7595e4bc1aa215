-- ===== src/M6502/Translate/Correct/Operands.antt =====
-- The instructions with an operand: loads, stores, logic, arithmetic, shifts, steps in memory.
use libcpu.Base.{
  ℕ, ◌+◌, ◌-◌, ◌*◌, ◌/◌, ◌%◌, ◌<◌, ◌≡◌, refl, bit_and, bit_or, bit_xor, Bool, true, false, none,
  some, leb, arith, bit_and-lt, bit_or-lt, bit_xor-lt,
}
use libcpu.Frontend.Code.{Guest, Ptr, on, peek, poke}
use libcpu.Frontend.Arith.{arch_adc, arch_shiftrotate}
use libcpu.Frontend.Arith.Laws.{byte, arch_adc_lem, arch_shiftrotate_lem, shifted_byte, shifted_out}
use libcpu.M6502.Isa.{Instr, AddMode, get_addmode}
use libcpu.M6502.Arch.{arch_6502_info, arch_6502_nzc}
use libcpu.M6502.Mos
use libcpu.M6502.Mos.{Mos, execute, value_of, write_to, bit_of}
use libcpu.M6502.Translate.{operand_8, operand_16, instr_switch, operand, loperand, nz}
use libcpu.M6502.Translate.Bytes.{
  view, IsBytes, IsRight, with_gpr, with_flag, with_gpr-IsBytes, with_flag-IsBytes, nz-IsRight,
  xor_255,
}
use libcpu.M6502.Translate.Operand.{
  Fits, has_operand, ptr_of, loperand_lem, operand_lem, value_of-byte, peek-ptr_of, view-poke,
  poke-IsBytes, pc-poke, view-poke_carried,
}

-- The complement of M and one more is a subtraction.
difference : (r n : ℕ) → r < 256 → n < 256 → r + (255 - n) + 1 ≡ r + 256 - n
difference r n p q = omega arith

no_borrow : (r n : ℕ) → r < 256 → n < 256 → (r + 256 - n) / 256 ≡ bit_of (leb n r)
no_borrow r n p q = ground arith

module _ (g : Guest) (bytes : IsBytes g) (ram : ℕ → ℕ) (pc lo hi : ℕ) (lo_byte : lo < 256)
    (hi_byte : hi < 256) (base8 : operand_8 ram pc ≡ lo)
    (base16 : operand_16 ram pc ≡ lo + 256 * hi) (mode : AddMode)
    (same : get_addmode (ram pc) ≡ mode) (has : has_operand mode ≡ true)
    (fits : Fits mode lo (view g)) where
  abbrev pub Right : Instr → Type 0
  Right i = IsRight (instr_switch ram pc i g) (execute pc mode lo hi i (view g)) g.pc

  abbrev n : ℕ
  n = value_of lo hi mode (view g)

  n-byte : n < 256
  n-byte = value_of-byte g bytes ram pc lo hi lo_byte hi_byte base8 base16 mode

  loaded : operand ram pc g ≡ on (byte n) g
  loaded = operand_lem g bytes ram pc lo hi lo_byte hi_byte base8 base16 mode same has fits

  abbrev place : Ptr
  place = ptr_of g bytes ram pc lo hi lo_byte hi_byte base8 base16 mode (view g)

  placed : loperand ram pc g ≡ on place g
  placed = loperand_lem g bytes ram pc lo hi lo_byte hi_byte base8 base16 mode same has fits

  peeked : peek arch_6502_info place g ≡ byte n
  peeked = peek-ptr_of g bytes ram pc lo hi lo_byte hi_byte base8 base16 mode

  -- A byte written to the operand, after the carry flag or not.
  wrote : (r : ℕ) → view (poke (byte r) place g) ≡ write_to lo hi mode r (view g)
  wrote r = view-poke g bytes ram pc lo hi lo_byte hi_byte base8 base16 (byte r) mode

  wrote-IsBytes : (r : ℕ) (k : Guest) → r < 256 → IsBytes k → IsBytes (poke (byte r) place k)
  wrote-IsBytes r k = poke-IsBytes g bytes ram pc lo hi lo_byte hi_byte base8 base16 (byte r) mode k

  wrote-pc : (r : ℕ) (k : Guest) → (poke (byte r) place k).pc ≡ k.pc
  wrote-pc r k = pc-poke g bytes ram pc lo hi lo_byte hi_byte base8 base16 (byte r) mode k

  -- A byte in a register, and N and Z.
  in_reg :
      (i r : ℕ)
      → r < 256
      → IsRight (nz (byte r) (with_gpr i r g)) (Mos.set_nz r (view (with_gpr i r g))) g.pc
  in_reg i r small =
      nz-IsRight r (with_gpr i r g) small (with_gpr-IsBytes i r g small bytes) refl refl

  pub lda_lem : Right Instr.lda
  unfolding instr_switch execute
  lda_lem = rw loaded (in_reg 0 n n-byte)

  pub ldx_lem : Right Instr.ldx
  unfolding instr_switch execute
  ldx_lem = rw loaded (in_reg 1 n n-byte)

  pub ldy_lem : Right Instr.ldy
  unfolding instr_switch execute
  ldy_lem = rw loaded (in_reg 2 n n-byte)

  stored :
      (r : ℕ)
      → r < 256
      → IsRight (on tt (poke (byte r) place g)) (write_to lo hi mode r (view g)) g.pc
  stored r small = (wrote r, wrote-IsBytes r g small bytes, wrote-pc r g)

  pub sta_lem : Right Instr.sta
  unfolding instr_switch execute
  sta_lem = rw placed (stored (g.gpr 0) (bytes.gpr_byte 0))

  pub stx_lem : Right Instr.stx
  unfolding instr_switch execute
  stx_lem = rw placed (stored (g.gpr 1) (bytes.gpr_byte 1))

  pub sty_lem : Right Instr.sty
  unfolding instr_switch execute
  sty_lem = rw placed (stored (g.gpr 2) (bytes.gpr_byte 2))

  pub and_lem : Right Instr.and
  unfolding instr_switch execute
  and_lem = rw loaded (in_reg 0 (bit_and (g.gpr 0) n) (bit_and-lt 8 _ _ (bytes.gpr_byte 0) n-byte))

  pub ora_lem : Right Instr.ora
  unfolding instr_switch execute
  ora_lem = rw loaded (in_reg 0 (bit_or (g.gpr 0) n) (bit_or-lt 8 _ _ (bytes.gpr_byte 0) n-byte))

  pub eor_lem : Right Instr.eor
  unfolding instr_switch execute
  eor_lem = rw loaded (in_reg 0 (bit_xor (g.gpr 0) n) (bit_xor-lt 8 _ _ (bytes.gpr_byte 0) n-byte))

  -- A byte in the operand, and N and Z.
  in_place :
      (r : ℕ)
      → r < 256
      → IsRight
          (nz (byte r) (poke (byte r) place g))
          (Mos.set_nz r (write_to lo hi mode r (view g)))
          g.pc
  in_place r small =
      nz-IsRight r (poke (byte r) place g) small (wrote-IsBytes r g small bytes) (wrote r)
        (wrote-pc r g)

  pub inc_lem : Right Instr.inc
  unfolding instr_switch execute
  inc_lem = rw (loaded, placed) (in_place ((n + 1) % 256) (omega arith))

  back_one : n + 256 - 1 ≡ n + 255
  back_one = omega arith

  pub dec_lem : Right Instr.dec
  unfolding instr_switch execute
  dec_lem = rw (loaded, placed, back_one) (in_place ((n + 255) % 256) (omega arith))

  -- The result of a comparison: only the carry, N and Z.
  compared :
      (r : ℕ)
      → r < 256
      → IsRight
          (nz (byte ((r + 256 - n) % 256)) (with_flag 0 (bit_of (leb n r)) g))
          (Mos.compare_with r n (view g))
          g.pc
  compared r small =
      nz-IsRight ((r + 256 - n) % 256) (with_flag 0 (bit_of (leb n r)) g) (omega arith)
        (with_flag-IsBytes 0 (bit_of (leb n r)) g (ground arith) bytes) refl refl

  compares :
      (i : ℕ)
      → g.gpr i < 256
      → arch_adc arch_6502_info arch_6502_nzc none (Ptr.gpr i) (byte (255 - n)) false true g
        ≡ on
            (byte ((g.gpr i + (255 - n) + 1) % 256))
            (with_flag 0 ((g.gpr i + (255 - n) + 1) / 256) g)
  unfolding peek poke
  compares i small =
      arch_adc_lem arch_6502_info arch_6502_nzc g none (Ptr.gpr i) false true (g.gpr i) (255 - n)
        refl small (omega arith) (bytes.flag_bit 0)

  adds :
      (b : ℕ)
      → b < 256
      → arch_adc arch_6502_info arch_6502_nzc (some (Ptr.gpr 0)) (Ptr.gpr 0) (byte b) true false g
        ≡ on (byte ((g.gpr 0 + b + g.flag 0) % 256)) (
            with_gpr 0
              ((g.gpr 0 + b + g.flag 0) % 256)
              (with_flag 0 ((g.gpr 0 + b + g.flag 0) / 256) g))
  unfolding peek poke
  adds b small =
      arch_adc_lem arch_6502_info arch_6502_nzc g (some (Ptr.gpr 0)) (Ptr.gpr 0) true false
        (g.gpr 0) b refl (bytes.gpr_byte 0) small (bytes.flag_bit 0)

  abbrev shifted : Bool → Bool → ℕ
  shifted left rotate = shifted_byte left rotate (g.flag 0) n

  shifts :
      (left rotate : Bool)
      → arch_shiftrotate arch_6502_info arch_6502_nzc place place left rotate g
        ≡ on
            (byte (shifted left rotate))
            (poke (byte (shifted left rotate)) place (with_flag 0 (shifted_out left n) g))
  unfolding poke
  shifts left rotate =
      arch_shiftrotate_lem arch_6502_info arch_6502_nzc g place place left rotate n peeked n-byte
        (bytes.flag_bit 0)

  pub cmp_lem : Right Instr.cmp
  unfolding instr_switch execute
  cmp_lem =
      rw
        (
          loaded,
          xor_255 n n-byte,
          compares 0 (bytes.gpr_byte 0),
          difference (g.gpr 0) n (bytes.gpr_byte 0) n-byte,
          no_borrow (g.gpr 0) n (bytes.gpr_byte 0) n-byte,
        )
        (compared (g.gpr 0) (bytes.gpr_byte 0))

  pub cpx_lem : Right Instr.cpx
  unfolding instr_switch execute
  cpx_lem =
      rw
        (
          loaded,
          xor_255 n n-byte,
          compares 1 (bytes.gpr_byte 1),
          difference (g.gpr 1) n (bytes.gpr_byte 1) n-byte,
          no_borrow (g.gpr 1) n (bytes.gpr_byte 1) n-byte,
        )
        (compared (g.gpr 1) (bytes.gpr_byte 1))

  pub cpy_lem : Right Instr.cpy
  unfolding instr_switch execute
  cpy_lem =
      rw
        (
          loaded,
          xor_255 n n-byte,
          compares 2 (bytes.gpr_byte 2),
          difference (g.gpr 2) n (bytes.gpr_byte 2) n-byte,
          no_borrow (g.gpr 2) n (bytes.gpr_byte 2) n-byte,
        )
        (compared (g.gpr 2) (bytes.gpr_byte 2))

  -- The sum in A, with the carry; V is left alone.
  added :
      (b : ℕ)
      → b < 256
      → IsRight
          (nz (byte ((g.gpr 0 + b + g.flag 0) % 256)) (
            with_gpr 0
              ((g.gpr 0 + b + g.flag 0) % 256)
              (with_flag 0 ((g.gpr 0 + b + g.flag 0) / 256) g)))
          (record (Mos.add_with_carry b (view g)) { v = g.flag 6 })
          g.pc
  added b small =
      let a = bytes.gpr_byte 0 in
      let c = bytes.flag_bit 0 in
      nz-IsRight ((g.gpr 0 + b + g.flag 0) % 256) _ (omega arith)
        (with_gpr-IsBytes 0 ((g.gpr 0 + b + g.flag 0) % 256) _ (omega arith)
          (with_flag-IsBytes 0 ((g.gpr 0 + b + g.flag 0) / 256) g (omega arith) bytes))
        refl refl

  -- All but V.
  abbrev pub RightButV : Instr → Type 0
  RightButV i =
      IsRight (instr_switch ram pc i g) (record (execute pc mode lo hi i (view g)) { v = g.flag 6 })
        g.pc

  pub adc_lem : RightButV Instr.adc
  unfolding instr_switch execute
  adc_lem = rw (loaded, adds n n-byte) (added n n-byte)

  pub sbc_lem : RightButV Instr.sbc
  unfolding instr_switch execute
  sbc_lem =
      rw (loaded, xor_255 n n-byte, adds (255 - n) (omega arith)) (added (255 - n) (omega arith))

  -- The operand shifted, and the carry.
  in_place_carried :
      (r c : ℕ)
      → r < 256
      → c < 2
      → IsRight
          (nz (byte r) (poke (byte r) place (with_flag 0 c g)))
          (Mos.set_nz r (write_to lo hi mode r (record (view g) { c = c })))
          g.pc
  in_place_carried r c small bit =
      nz-IsRight r (poke (byte r) place (with_flag 0 c g)) small
        (wrote-IsBytes r (with_flag 0 c g) small (with_flag-IsBytes 0 c g bit bytes))
        (view-poke_carried g bytes ram pc lo hi lo_byte hi_byte base8 base16 (byte r) c mode)
        (wrote-pc r (with_flag 0 c g))

  pub asl_lem : Right Instr.asl
  unfolding instr_switch execute
  asl_lem =
      rw (placed, placed, shifts true false)
        (in_place_carried (n * 2 % 256) (n / 128) (omega arith) (omega (arith, n-byte)))

  pub lsr_lem : Right Instr.lsr
  unfolding instr_switch execute
  lsr_lem =
      rw (placed, placed, shifts false false)
        (in_place_carried (n / 2) (n % 2) (omega (arith, n-byte)) (omega arith))

  pub rol_lem : Right Instr.rol
  unfolding instr_switch execute
  rol_lem =
      let c = bytes.flag_bit 0 in
      rw (placed, placed, shifts true true)
        (in_place_carried (n * 2 % 256 + g.flag 0) (n / 128) (omega arith) (omega (arith, n-byte)))

  pub ror_lem : Right Instr.ror
  unfolding instr_switch execute
  ror_lem =
      let c = bytes.flag_bit 0 in
      rw (placed, placed, shifts false true)
        (in_place_carried (n / 2 + 128 * g.flag 0) (n % 2) (omega (arith, n-byte)) (omega arith))

  -- BIT sets N and Z from the operand alone, as a load does.
  pub bit_lem : IsRight (instr_switch ram pc Instr.bit g) (Mos.set_nz n (view g)) g.pc
  unfolding instr_switch
  bit_lem = rw loaded (nz-IsRight n g n-byte bytes refl refl)
