-- ===== src/M6502/Translate/Correct.antt =====
-- The code of `arch_6502_translate_instr` (arch/6502/6502_translate.cpp) does what the 6502 does.
pub mod Plain
pub mod Operands
use libcpu.Base.{
  ℕ, ◌+◌, ◌*◌, ◌%◌, ◌^◌, ◌<◌, ◌≡◌, ◌∙◌, refl, bit_and, bit_or, Bool, true, false, not, ◌||◌, arith,
  all_below, all_below-test, Bool-cases, inl, inr,
}
use mathlib.Core.Path.{subst}
use libcpu.Frontend.Code.{Guest}
use libcpu.M6502.Arch.{d_shift, v_shift, reg_x}
use libcpu.M6502.Isa.{Instr, AddMode, get_instr, get_addmode}
use libcpu.M6502.Mos
use libcpu.M6502.Mos.{Mos, execute, next_pc, value_of}
use libcpu.M6502.Translate.{operand_8, operand_16, instr_switch, arch_6502_translate_instr}
use libcpu.M6502.Translate.Bytes.{view, IsBytes, IsRight, or_word, and_65535}
use libcpu.M6502.Translate.Operand.{Fits, has_operand}
use libcpu.M6502.Translate.Correct.Plain
use libcpu.M6502.Translate.Correct.Operands

-- The instructions with an operand.
abbrev pub takes_operand : Instr → Bool
takes_operand Instr.lda = true
takes_operand Instr.ldx = true
takes_operand Instr.ldy = true
takes_operand Instr.sta = true
takes_operand Instr.stx = true
takes_operand Instr.sty = true
takes_operand Instr.and = true
takes_operand Instr.ora = true
takes_operand Instr.eor = true
takes_operand Instr.inc = true
takes_operand Instr.dec = true
takes_operand Instr.cmp = true
takes_operand Instr.cpx = true
takes_operand Instr.cpy = true
takes_operand Instr.asl = true
takes_operand Instr.lsr = true
takes_operand Instr.rol = true
takes_operand Instr.ror = true
takes_operand Instr.adc = true
takes_operand Instr.sbc = true
takes_operand Instr.bit = true
takes_operand _ = false

-- The instructions whose code does just what the 6502 does. ADC and SBC leave V alone, BIT and TXS set
-- the wrong flags, PHP pushes B as it is, and BRK, RTI and undocumented opcodes trap.
abbrev pub is_exact : Instr → Bool
is_exact Instr.adc = false
is_exact Instr.sbc = false
is_exact Instr.bit = false
is_exact Instr.txs = false
is_exact Instr.php = false
is_exact Instr.brk = false
is_exact Instr.rti = false
is_exact Instr.xxx = false
is_exact _ = true

abbrev pub differs : Instr → Bool
differs Instr.adc = true
differs Instr.sbc = true
differs Instr.bit = true
differs Instr.txs = true
differs _ = false

operands_table :
    all_below 256 (λ o. not (takes_operand (get_instr o)) || has_operand (get_addmode o)) ≡ true
unfolding all_below get_instr get_addmode
operands_table = refl

-- An opcode of an instruction with an operand has a mode that gives one.
has_operand-opcode :
    (o : ℕ) → o < 256 → takes_operand (get_instr o) ≡ true → has_operand (get_addmode o) ≡ true
has_operand-opcode o small takes =
    let both = all_below-test 256 _ o operands_table small in ground arith

-- The operand's bytes are those behind the opcode.
operand_16_lem :
    (ram : ℕ → ℕ) (pc : ℕ)
    → ((a : ℕ) → ram a < 256)
    → operand_16 ram pc ≡ operand_8 ram pc + 256 * ram (bit_and (pc + 2) 0xffff)
operand_16_lem ram pc code =
    let lo = code (bit_and (pc + 1) 0xffff) in
    let hi = code (bit_and (pc + 2) 0xffff) in
    let word = or_word (operand_8 ram pc) (ram (bit_and (pc + 2) 0xffff)) lo in
    and_65535 (bit_or (operand_8 ram pc) (ram (bit_and (pc + 2) 0xffff) * 256)) ∙ omega arith

module _ (g : Guest) (bytes : IsBytes g) (ram : ℕ → ℕ) (pc : ℕ) (code : (a : ℕ) → ram a < 256) where
  abbrev pub lo : ℕ
  lo = operand_8 ram pc

  abbrev pub hi : ℕ
  hi = ram (bit_and (pc + 2) 0xffff)

  abbrev pub mode : AddMode
  mode = get_addmode (ram pc)

  -- What the 6502 makes of the instruction at `pc`, as it stood when it was translated.
  abbrev pub executed : Instr → Mos
  executed i = execute pc mode lo hi i (view g)

  -- The PC after the code: RTS and the indirect JMP write it.
  abbrev pub left_pc : Instr → AddMode → ℕ
  left_pc Instr.rts m = next_pc pc mode lo hi Instr.rts (view g)
  left_pc Instr.jmp AddMode.ind = next_pc pc AddMode.ind lo hi Instr.jmp (view g)
  left_pc _ m = g.pc

  abbrev Exactly : Instr → Type 0
  Exactly i = IsRight (instr_switch ram pc i g) (executed i) (left_pc i mode)

  jmp_pc-left_pc : (m : AddMode) → Plain.jmp_pc g bytes ram pc lo hi mode m ≡ left_pc Instr.jmp m
  unfolding next_pc
  jmp_pc-left_pc AddMode.ind = refl
  jmp_pc-left_pc AddMode.abs = refl
  jmp_pc-left_pc _ = refl

  -- Of four instructions the code differs in the flags: ADC and SBC leave V, BIT takes N and Z from
  -- the operand and leaves V, TXS sets N and Z.
  abbrev pub as_built : Instr → Mos
  as_built Instr.adc = record (executed Instr.adc) { v = g.flag v_shift }
  as_built Instr.sbc = record (executed Instr.sbc) { v = g.flag v_shift }
  as_built Instr.bit = Mos.set_nz (value_of lo hi mode (view g)) (view g)
  as_built Instr.txs = Mos.set_nz (g.gpr reg_x) (executed Instr.txs)
  as_built i = executed i

  module _ (fits : Fits mode lo (view g)) where
    base16 : operand_16 ram pc ≡ lo + 256 * hi
    base16 = operand_16_lem ram pc code

    exact_switch :
        (i : Instr)
        → is_exact i ≡ true
        → (takes_operand i ≡ true → has_operand mode ≡ true)
        → Exactly i
    unfolding instr_switch execute
    exact_switch Instr.clc e o = Plain.clc_lem g bytes ram pc lo hi mode
    exact_switch Instr.cld e o = Plain.cld_lem g bytes ram pc lo hi mode
    exact_switch Instr.cli e o = Plain.cli_lem g bytes ram pc lo hi mode
    exact_switch Instr.clv e o = Plain.clv_lem g bytes ram pc lo hi mode
    exact_switch Instr.sec e o = Plain.sec_lem g bytes ram pc lo hi mode
    exact_switch Instr.sed e o = Plain.sed_lem g bytes ram pc lo hi mode
    exact_switch Instr.sei e o = Plain.sei_lem g bytes ram pc lo hi mode
    exact_switch Instr.tax e o = Plain.tax_lem g bytes ram pc lo hi mode
    exact_switch Instr.tay e o = Plain.tay_lem g bytes ram pc lo hi mode
    exact_switch Instr.txa e o = Plain.txa_lem g bytes ram pc lo hi mode
    exact_switch Instr.tya e o = Plain.tya_lem g bytes ram pc lo hi mode
    exact_switch Instr.tsx e o = Plain.tsx_lem g bytes ram pc lo hi mode
    exact_switch Instr.inx e o = Plain.inx_lem g bytes ram pc lo hi mode
    exact_switch Instr.iny e o = Plain.iny_lem g bytes ram pc lo hi mode
    exact_switch Instr.dex e o = Plain.dex_lem g bytes ram pc lo hi mode
    exact_switch Instr.dey e o = Plain.dey_lem g bytes ram pc lo hi mode
    exact_switch Instr.pha e o = Plain.pha_lem g bytes ram pc lo hi mode
    exact_switch Instr.pla e o = Plain.pla_lem g bytes ram pc lo hi mode
    exact_switch Instr.plp e o = Plain.plp_lem g bytes ram pc lo hi mode
    exact_switch Instr.jsr e o = Plain.jsr_lem g bytes ram pc lo hi mode
    exact_switch Instr.rts e o = Plain.rts_lem g bytes ram pc lo hi mode
    exact_switch Instr.lda e o =
        Operands.lda_lem g bytes ram pc lo hi (code _) (code _) refl base16 mode refl (o refl) fits
    exact_switch Instr.ldx e o =
        Operands.ldx_lem g bytes ram pc lo hi (code _) (code _) refl base16 mode refl (o refl) fits
    exact_switch Instr.ldy e o =
        Operands.ldy_lem g bytes ram pc lo hi (code _) (code _) refl base16 mode refl (o refl) fits
    exact_switch Instr.sta e o =
        Operands.sta_lem g bytes ram pc lo hi (code _) (code _) refl base16 mode refl (o refl) fits
    exact_switch Instr.stx e o =
        Operands.stx_lem g bytes ram pc lo hi (code _) (code _) refl base16 mode refl (o refl) fits
    exact_switch Instr.sty e o =
        Operands.sty_lem g bytes ram pc lo hi (code _) (code _) refl base16 mode refl (o refl) fits
    exact_switch Instr.and e o =
        Operands.and_lem g bytes ram pc lo hi (code _) (code _) refl base16 mode refl (o refl) fits
    exact_switch Instr.ora e o =
        Operands.ora_lem g bytes ram pc lo hi (code _) (code _) refl base16 mode refl (o refl) fits
    exact_switch Instr.eor e o =
        Operands.eor_lem g bytes ram pc lo hi (code _) (code _) refl base16 mode refl (o refl) fits
    exact_switch Instr.inc e o =
        Operands.inc_lem g bytes ram pc lo hi (code _) (code _) refl base16 mode refl (o refl) fits
    exact_switch Instr.dec e o =
        Operands.dec_lem g bytes ram pc lo hi (code _) (code _) refl base16 mode refl (o refl) fits
    exact_switch Instr.cmp e o =
        Operands.cmp_lem g bytes ram pc lo hi (code _) (code _) refl base16 mode refl (o refl) fits
    exact_switch Instr.cpx e o =
        Operands.cpx_lem g bytes ram pc lo hi (code _) (code _) refl base16 mode refl (o refl) fits
    exact_switch Instr.cpy e o =
        Operands.cpy_lem g bytes ram pc lo hi (code _) (code _) refl base16 mode refl (o refl) fits
    exact_switch Instr.asl e o =
        Operands.asl_lem g bytes ram pc lo hi (code _) (code _) refl base16 mode refl (o refl) fits
    exact_switch Instr.lsr e o =
        Operands.lsr_lem g bytes ram pc lo hi (code _) (code _) refl base16 mode refl (o refl) fits
    exact_switch Instr.rol e o =
        Operands.rol_lem g bytes ram pc lo hi (code _) (code _) refl base16 mode refl (o refl) fits
    exact_switch Instr.ror e o =
        Operands.ror_lem g bytes ram pc lo hi (code _) (code _) refl base16 mode refl (o refl) fits
    exact_switch Instr.nop e o = Plain.idle_lem g bytes ram pc lo hi mode
    exact_switch Instr.bcc e o = Plain.idle_lem g bytes ram pc lo hi mode
    exact_switch Instr.bcs e o = Plain.idle_lem g bytes ram pc lo hi mode
    exact_switch Instr.beq e o = Plain.idle_lem g bytes ram pc lo hi mode
    exact_switch Instr.bmi e o = Plain.idle_lem g bytes ram pc lo hi mode
    exact_switch Instr.bne e o = Plain.idle_lem g bytes ram pc lo hi mode
    exact_switch Instr.bpl e o = Plain.idle_lem g bytes ram pc lo hi mode
    exact_switch Instr.bvc e o = Plain.idle_lem g bytes ram pc lo hi mode
    exact_switch Instr.bvs e o = Plain.idle_lem g bytes ram pc lo hi mode
    exact_switch Instr.jmp e o =
        subst (IsRight (instr_switch ram pc Instr.jmp g) (executed Instr.jmp)) (jmp_pc-left_pc mode)
          (Plain.jmp_lem g bytes ram pc lo hi mode (code _) (code _) base16 refl fits)
    exact_switch Instr.adc e o = cc
    exact_switch Instr.sbc e o = cc
    exact_switch Instr.bit e o = cc
    exact_switch Instr.txs e o = cc
    exact_switch Instr.php e o = cc
    exact_switch Instr.brk e o = cc
    exact_switch Instr.rti e o = cc
    exact_switch Instr.xxx e o = cc

    differing_switch :
        (i : Instr)
        → differs i ≡ true
        → (takes_operand i ≡ true → has_operand mode ≡ true)
        → IsRight (instr_switch ram pc i g) (as_built i) g.pc
    differing_switch Instr.adc e o =
        Operands.adc_lem g bytes ram pc lo hi (code _) (code _) refl base16 mode refl (o refl) fits
    differing_switch Instr.sbc e o =
        Operands.sbc_lem g bytes ram pc lo hi (code _) (code _) refl base16 mode refl (o refl) fits
    differing_switch Instr.bit e o =
        Operands.bit_lem g bytes ram pc lo hi (code _) (code _) refl base16 mode refl (o refl) fits
    differing_switch Instr.txs e o = Plain.txs_lem g bytes ram pc lo hi mode
    differing_switch Instr.and e o = cc
    differing_switch _ e o = cc

    -- For registers and memory of bytes, flags of bits, code of bytes, an instruction that is not one
    -- of ADC, SBC, BIT, TXS, PHP, BRK, RTI and undocumented, and an operand whose pointer does not
    -- wrap around in its page nor its address in memory: the code of `arch_6502_translate_instr` runs
    -- on, and leaves registers, flags and memory as the 6502 does, bytes and bits again; it writes the
    -- PC for RTS and the indirect JMP, to where the 6502 goes on, and leaves it otherwise.
    pub arch_6502_translate_instr-IsRight :
        is_exact (get_instr (ram pc)) ≡ true
        → IsRight
            (arch_6502_translate_instr ram pc g)
            (executed (get_instr (ram pc)))
            (left_pc (get_instr (ram pc)) mode)
    unfolding arch_6502_translate_instr
    arch_6502_translate_instr-IsRight e =
        exact_switch (get_instr (ram pc)) e (has_operand-opcode (ram pc) (code pc))

    -- On the same conditions, for ADC, SBC, BIT and TXS and with the decimal mode off: the code runs on, leaves the PC, and does what
    -- the 6502 does but for flags. ADC and SBC leave V alone, BIT takes N and Z from its operand and
    -- leaves V alone, and TXS sets N and Z.
    pub arch_6502_translate_instr-as_built :
        differs (get_instr (ram pc)) ≡ true
        → g.flag d_shift ≡ 0
        → IsRight (arch_6502_translate_instr ram pc g) (as_built (get_instr (ram pc))) g.pc
    unfolding arch_6502_translate_instr
    arch_6502_translate_instr-as_built e binary =
        differing_switch (get_instr (ram pc)) e (has_operand-opcode (ram pc) (code pc))
