-- ===== src/M6502/Isa.antt =====
-- The instruction set of the 6502: the enumerations and the decoding switches of
-- arch/6502/6502_isa.h.
pub mod Matrix
use libcpu.Base.{ℕ, Bool, List, [], ◌∷◌, if◌then◌else◌, is_case}

pub data Instr : Type 0 where
  adc and asl bcc bcs beq bit bmi bne bpl brk bvc bvs clc cld cli clv cmp cpx cpy dec dex : Instr
  dey eor inc inx iny jmp jsr lda ldx ldy lsr nop ora pha php pla plp rol ror rti rts sbc : Instr
  sec sed sei sta stx sty tax tay tsx txa txs tya xxx : Instr

pub data AddMode : Type 0 where
  abs absx absy acc bra imm impl ind indx indy zp zpx zpy : AddMode

unfoldable pub get_addmode : ℕ → AddMode
get_addmode opcode =
    if is_case opcode (
      0x0D ∷ 0x0E ∷ 0x20 ∷ 0x2C ∷ 0x2D ∷ 0x2E ∷ 0x4C ∷ 0x4D ∷ 0x4E ∷ 0x6D ∷ 0x6E ∷ 0x8C ∷ 0x8D
      ∷ 0x8E ∷ 0xAC ∷ 0xAD ∷ 0xAE ∷ 0xCC ∷ 0xCD ∷ 0xCE ∷ 0xEC ∷ 0xED ∷ 0xEE ∷ [])
    then AddMode.abs
    else if is_case opcode (
        0x1D ∷ 0x1E ∷ 0x3D ∷ 0x3E ∷ 0x5D ∷ 0x5E ∷ 0x7D ∷ 0x7E ∷ 0x9D ∷ 0xBC ∷ 0xBD ∷ 0xDD ∷ 0xDE
        ∷ 0xFD ∷ 0xFE ∷ [])
    then AddMode.absx
    else if is_case opcode (0x19 ∷ 0x39 ∷ 0x59 ∷ 0x79 ∷ 0x99 ∷ 0xB9 ∷ 0xBE ∷ 0xD9 ∷ 0xF9 ∷ [])
    then AddMode.absy
    else if is_case opcode (0x0A ∷ 0x2A ∷ 0x4A ∷ 0x6A ∷ [])
    then AddMode.acc
    else if is_case opcode (0x10 ∷ 0x30 ∷ 0x50 ∷ 0x70 ∷ 0x90 ∷ 0xB0 ∷ 0xD0 ∷ 0xF0 ∷ [])
    then AddMode.bra
    else if is_case opcode
        (0x09 ∷ 0x29 ∷ 0x49 ∷ 0x69 ∷ 0xA0 ∷ 0xA2 ∷ 0xA9 ∷ 0xC0 ∷ 0xC9 ∷ 0xE0 ∷ 0xE9 ∷ [])
    then AddMode.imm
    else if is_case opcode (0x6C ∷ [])
    then AddMode.ind
    else if is_case opcode (0x01 ∷ 0x21 ∷ 0x41 ∷ 0x61 ∷ 0x81 ∷ 0xA1 ∷ 0xC1 ∷ 0xE1 ∷ [])
    then AddMode.indx
    else if is_case opcode (0x11 ∷ 0x31 ∷ 0x51 ∷ 0x71 ∷ 0x91 ∷ 0xB1 ∷ 0xD1 ∷ 0xF1 ∷ [])
    then AddMode.indy
    else if is_case opcode (
        0x05 ∷ 0x06 ∷ 0x24 ∷ 0x25 ∷ 0x26 ∷ 0x45 ∷ 0x46 ∷ 0x65 ∷ 0x66 ∷ 0x84 ∷ 0x85 ∷ 0x86 ∷ 0xA4
        ∷ 0xA5 ∷ 0xA6 ∷ 0xC4 ∷ 0xC5 ∷ 0xC6 ∷ 0xE4 ∷ 0xE5 ∷ 0xE6 ∷ [])
    then AddMode.zp
    else if is_case opcode (
        0x15 ∷ 0x16 ∷ 0x35 ∷ 0x36 ∷ 0x55 ∷ 0x56 ∷ 0x75 ∷ 0x76 ∷ 0x94 ∷ 0x95 ∷ 0xB4 ∷ 0xB5 ∷ 0xD5
        ∷ 0xD6 ∷ 0xF5 ∷ 0xF6 ∷ [])
    then AddMode.zpx
    else if is_case opcode (0x96 ∷ 0xB6 ∷ [])
    then AddMode.zpy
    else AddMode.impl

unfoldable pub get_instr : ℕ → Instr
get_instr opcode =
    if is_case opcode (0x00 ∷ [])
    then Instr.brk
    else if is_case opcode (0xEA ∷ [])
    then Instr.nop
    else if is_case opcode (0x8A ∷ [])
    then Instr.txa
    else if is_case opcode (0x98 ∷ [])
    then Instr.tya
    else if is_case opcode (0xA8 ∷ [])
    then Instr.tay
    else if is_case opcode (0xAA ∷ [])
    then Instr.tax
    else if is_case opcode (0x9A ∷ [])
    then Instr.txs
    else if is_case opcode (0xBA ∷ [])
    then Instr.tsx
    else if is_case opcode (0xA1 ∷ 0xA5 ∷ 0xA9 ∷ 0xAD ∷ 0xB1 ∷ 0xB5 ∷ 0xB9 ∷ 0xBD ∷ [])
    then Instr.lda
    else if is_case opcode (0xA2 ∷ 0xA6 ∷ 0xAE ∷ 0xB6 ∷ 0xBE ∷ [])
    then Instr.ldx
    else if is_case opcode (0xA0 ∷ 0xA4 ∷ 0xAC ∷ 0xB4 ∷ 0xBC ∷ [])
    then Instr.ldy
    else if is_case opcode (0x81 ∷ 0x85 ∷ 0x8D ∷ 0x91 ∷ 0x95 ∷ 0x99 ∷ 0x9D ∷ [])
    then Instr.sta
    else if is_case opcode (0x84 ∷ 0x8C ∷ 0x94 ∷ [])
    then Instr.sty
    else if is_case opcode (0x86 ∷ 0x8E ∷ 0x96 ∷ [])
    then Instr.stx
    else if is_case opcode (0x21 ∷ 0x25 ∷ 0x29 ∷ 0x2D ∷ 0x31 ∷ 0x35 ∷ 0x39 ∷ 0x3D ∷ [])
    then Instr.and
    else if is_case opcode (0x01 ∷ 0x05 ∷ 0x09 ∷ 0x0D ∷ 0x11 ∷ 0x15 ∷ 0x19 ∷ 0x1D ∷ [])
    then Instr.ora
    else if is_case opcode (0x41 ∷ 0x45 ∷ 0x49 ∷ 0x4D ∷ 0x51 ∷ 0x55 ∷ 0x59 ∷ 0x5D ∷ [])
    then Instr.eor
    else if is_case opcode (0x24 ∷ 0x2C ∷ [])
    then Instr.bit
    else if is_case opcode (0x06 ∷ 0x0A ∷ 0x0E ∷ 0x16 ∷ 0x1E ∷ [])
    then Instr.asl
    else if is_case opcode (0x46 ∷ 0x4A ∷ 0x4E ∷ 0x56 ∷ 0x5E ∷ [])
    then Instr.lsr
    else if is_case opcode (0x26 ∷ 0x2A ∷ 0x2E ∷ 0x36 ∷ 0x3E ∷ [])
    then Instr.rol
    else if is_case opcode (0x66 ∷ 0x6A ∷ 0x6E ∷ 0x76 ∷ 0x7E ∷ [])
    then Instr.ror
    else if is_case opcode (0xE6 ∷ 0xEE ∷ 0xF6 ∷ 0xFE ∷ [])
    then Instr.inc
    else if is_case opcode (0xC6 ∷ 0xCE ∷ 0xD6 ∷ 0xDE ∷ [])
    then Instr.dec
    else if is_case opcode (0xE8 ∷ [])
    then Instr.inx
    else if is_case opcode (0xC8 ∷ [])
    then Instr.iny
    else if is_case opcode (0xCA ∷ [])
    then Instr.dex
    else if is_case opcode (0x88 ∷ [])
    then Instr.dey
    else if is_case opcode (0x61 ∷ 0x65 ∷ 0x69 ∷ 0x6D ∷ 0x71 ∷ 0x75 ∷ 0x79 ∷ 0x7D ∷ [])
    then Instr.adc
    else if is_case opcode (0xE1 ∷ 0xE5 ∷ 0xE9 ∷ 0xED ∷ 0xF1 ∷ 0xF5 ∷ 0xF9 ∷ 0xFD ∷ [])
    then Instr.sbc
    else if is_case opcode (0xC1 ∷ 0xC5 ∷ 0xC9 ∷ 0xCD ∷ 0xD1 ∷ 0xD5 ∷ 0xD9 ∷ 0xDD ∷ [])
    then Instr.cmp
    else if is_case opcode (0xE0 ∷ 0xE4 ∷ 0xEC ∷ [])
    then Instr.cpx
    else if is_case opcode (0xC0 ∷ 0xC4 ∷ 0xCC ∷ [])
    then Instr.cpy
    else if is_case opcode (0x08 ∷ [])
    then Instr.php
    else if is_case opcode (0x28 ∷ [])
    then Instr.plp
    else if is_case opcode (0x48 ∷ [])
    then Instr.pha
    else if is_case opcode (0x68 ∷ [])
    then Instr.pla
    else if is_case opcode (0x10 ∷ [])
    then Instr.bpl
    else if is_case opcode (0x30 ∷ [])
    then Instr.bmi
    else if is_case opcode (0x50 ∷ [])
    then Instr.bvc
    else if is_case opcode (0x70 ∷ [])
    then Instr.bvs
    else if is_case opcode (0x90 ∷ [])
    then Instr.bcc
    else if is_case opcode (0xB0 ∷ [])
    then Instr.bcs
    else if is_case opcode (0xD0 ∷ [])
    then Instr.bne
    else if is_case opcode (0xF0 ∷ [])
    then Instr.beq
    else if is_case opcode (0x18 ∷ [])
    then Instr.clc
    else if is_case opcode (0x58 ∷ [])
    then Instr.cli
    else if is_case opcode (0xB8 ∷ [])
    then Instr.clv
    else if is_case opcode (0xD8 ∷ [])
    then Instr.cld
    else if is_case opcode (0x38 ∷ [])
    then Instr.sec
    else if is_case opcode (0x78 ∷ [])
    then Instr.sei
    else if is_case opcode (0xF8 ∷ [])
    then Instr.sed
    else if is_case opcode (0x20 ∷ [])
    then Instr.jsr
    else if is_case opcode (0x4C ∷ 0x6C ∷ [])
    then Instr.jmp
    else if is_case opcode (0x40 ∷ [])
    then Instr.rti
    else if is_case opcode (0x60 ∷ [])
    then Instr.rts
    else Instr.xxx

-- All modes have a length, so the source's -1 for an unknown mode is not reached.
unfoldable pub get_length : AddMode → ℕ
get_length AddMode.abs = 3
get_length AddMode.absx = 3
get_length AddMode.absy = 3
get_length AddMode.acc = 1
get_length AddMode.bra = 2
get_length AddMode.imm = 2
get_length AddMode.impl = 1
get_length AddMode.ind = 3
get_length AddMode.indx = 2
get_length AddMode.indy = 2
get_length AddMode.zp = 2
get_length AddMode.zpx = 2
get_length AddMode.zpy = 2
