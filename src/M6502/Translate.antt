-- ===== src/M6502/Translate.antt =====
-- `arch_6502_translate_cond` and `arch_6502_translate_instr` of arch/6502/6502_translate.cpp. `ram` is
-- RAM when the code is translated; the emitted code reads the RAM of its guest.
pub mod Bytes
pub mod Operand
pub mod Correct
use libcpu.Base.{
  ℕ, ◌+◌, ◌*◌, ◌%◌, ◌^◌, ◌/◌, bit_and, bit_or, Bool, true, false, Option, none, some, ◌||◌, leb,
  if◌then◌else◌,
}
use libcpu.Run.{jit_return_trap}
use libcpu.Frontend.Value.{
  Value, consts, true_value, false_value, zext, add, and, or, xor, shl, not1, complement, inc, dec,
}
use libcpu.Frontend.Code.{Ptr, Code, ◌>>=◌, ◌>>◌, pure, return, fails, load, store, peek, poke}
use libcpu.Frontend.Registers.{reg, let_reg}
use libcpu.Frontend.Arith.{set_nz, arch_shiftrotate, arch_adc}
use libcpu.Frontend.Flags.{arch_flags_encode, arch_flags_decode}
use libcpu.M6502.Isa.{Instr, AddMode, get_instr, get_addmode, get_length}
use libcpu.M6502.Arch.{
  arch_6502_info, arch_6502_nzc, n_shift, v_shift, d_shift, i_shift, z_shift, c_shift, reg_a, reg_x,
  reg_y, reg_s,
}

abbrev pub info_load : Ptr → Code Value
info_load p = load arch_6502_info p

abbrev pub r : ℕ → Code Value
r i = reg arch_6502_info i

abbrev pub put : ℕ → Value → Code Value
put i v = let_reg arch_6502_info i v

abbrev pub nz : Value → Code (Unit {0})
nz v = set_nz arch_6502_info arch_6502_nzc v

-- GEP, a byte of RAM. The index is a sum of 16 and 8 bits in 32 bits: its sign bit is 0.
abbrev pub gep : Value → Ptr
gep a = Ptr.ram a.word

-- LOAD_RAM16
unfoldable pub load_ram16 : Value → Code Value
unfolding zext add or shl peek
load_ram16 a = do
  lo ← info_load (gep a)
  hi ← info_load (gep (add a (consts 32 1)))
  pure (or (zext 16 lo) (shl (zext 16 hi) (consts 16 8)))

-- TOS
abbrev tos : Value → Ptr
tos s = gep (or (zext 32 s) (consts 32 0x0100))

-- PUSH
unfoldable pub push : Value → Code (Unit {0})
unfolding or zext reg let_reg dec poke
push v = do s ← r reg_s; store v (tos s); s' ← r reg_s; put reg_s (dec 8 s'); pure tt

-- PULL
unfoldable pub pull : Code Value
unfolding or zext reg let_reg inc peek
pull = do s ← r reg_s; put reg_s (inc 8 s); s' ← r reg_s; info_load (tos s')

-- PUSH16, of a number known when the code is translated.
unfoldable pub push16 : ℕ → Code (Unit {0})
unfolding push
push16 v = do push (consts 8 (v / 2 ^ 8)); push (consts 8 (bit_and v 0xff))

unfoldable pub arch_6502_pull16 : Code Value
unfolding pull or zext shl
arch_6502_pull16 = do lo ← pull; hi ← pull; pure (or (zext 16 lo) (shl (zext 16 hi) (consts 16 8)))

module _ (ram : ℕ → ℕ) (pc : ℕ) where
  -- OPERAND_8, OPERAND_16
  abbrev pub operand_8 : ℕ
  operand_8 = ram (bit_and (pc + 1) 0xffff)

  abbrev pub operand_16 : ℕ
  operand_16 = bit_and (bit_or operand_8 (ram (bit_and (pc + 2) 0xffff) * 2 ^ 8)) 0xffff

  abbrev mode : AddMode
  mode = get_addmode (ram pc)

  abbrev pub is_indirect : AddMode → Bool
  is_indirect AddMode.ind = true
  is_indirect AddMode.indx = true
  is_indirect AddMode.indy = true
  is_indirect _ = false

  abbrev pub is_8bit_base : AddMode → Bool
  is_8bit_base AddMode.abs = false
  is_8bit_base AddMode.absx = false
  is_8bit_base AddMode.absy = false
  is_8bit_base _ = true

  abbrev pub index_register_before : AddMode → Option ℕ
  index_register_before AddMode.absx = some reg_x
  index_register_before AddMode.indx = some reg_x
  index_register_before AddMode.zpx = some reg_x
  index_register_before AddMode.absy = some reg_y
  index_register_before AddMode.zpy = some reg_y
  index_register_before _ = none

  abbrev pub index_register_after : AddMode → Option ℕ
  index_register_after AddMode.indy = some reg_y
  index_register_after _ = none

  abbrev pub add_index : Option ℕ → Value → Code Value
  add_index none ea = pure ea
  add_index (some i) ea = do index ← info_load (Ptr.gpr i); pure (add (zext 32 index) ea)

  abbrev pub wrap : AddMode → ℕ → Value → Value
  wrap am base ea =
      if is_8bit_base am
      then and ea (consts 32 0x00ff)
      else if leb 0xff00 base
      then and ea (consts 32 0xffff)
      else ea

  abbrev pub follow : Bool → Value → Code Value
  follow false ea = pure ea
  follow true ea = do v ← load_ram16 ea; pure (zext 32 v)

  -- The modes in memory.
  unfoldable pub memory_lvalue : AddMode → Code Ptr
  unfolding load_ram16 add and zext
  memory_lvalue am = do
    let base = if is_8bit_base am then operand_8 else operand_16
    ea ← add_index (index_register_before am) (consts 32 base)
    ea' ← follow (is_indirect am) (wrap am base ea)
    ea'' ← add_index (index_register_after am) ea'
    pure (gep ea'')

  -- NULL is `none`.
  unfoldable pub lvalue_of : AddMode → Code (Option Ptr)
  unfolding memory_lvalue
  lvalue_of AddMode.acc = pure (some (Ptr.gpr reg_a))
  lvalue_of AddMode.bra = pure none
  lvalue_of AddMode.impl = pure none
  lvalue_of AddMode.imm = pure (some (Ptr.temp operand_8))
  lvalue_of am = do p ← memory_lvalue am; pure (some p)

  unfoldable pub arch_6502_get_operand_lvalue : Code (Option Ptr)
  unfolding lvalue_of
  arch_6502_get_operand_lvalue = lvalue_of mode

  -- Of a NULL pointer LLVM makes no instruction.
  abbrev pub non_null : Option Ptr → Code Ptr
  non_null none = fails
  non_null (some p) = pure p

  -- LOPERAND, OPERAND
  unfoldable pub loperand : Code Ptr
  unfolding arch_6502_get_operand_lvalue
  loperand = do p ← arch_6502_get_operand_lvalue; non_null p

  unfoldable pub operand : Code Value
  unfolding loperand peek
  operand = do p ← loperand; info_load p

  unfoldable pub arch_6502_trap : Code (Unit {0})
  unfolding poke
  arch_6502_trap = do store (consts 16 pc) Ptr.pc; return jit_return_trap

  abbrev pub flag : ℕ → Code Value
  flag shift = info_load (Ptr.flag shift)

  abbrev no_flag : ℕ → Code Value
  no_flag shift = do v ← flag shift; pure (not1 v)

  -- `none` is NULL, no condition.
  unfoldable pub cond_switch : Instr → Code (Option Value)
  unfolding not1 peek
  cond_switch Instr.beq = do v ← flag z_shift; pure (some v)
  cond_switch Instr.bne = do v ← no_flag z_shift; pure (some v)
  cond_switch Instr.bcs = do v ← flag c_shift; pure (some v)
  cond_switch Instr.bcc = do v ← no_flag c_shift; pure (some v)
  cond_switch Instr.bmi = do v ← flag n_shift; pure (some v)
  cond_switch Instr.bpl = do v ← no_flag n_shift; pure (some v)
  cond_switch Instr.bvs = do v ← flag v_shift; pure (some v)
  cond_switch Instr.bvc = do v ← no_flag v_shift; pure (some v)
  cond_switch _ = pure none

  unfoldable pub arch_6502_translate_cond : Code (Option Value)
  unfolding cond_switch
  arch_6502_translate_cond = cond_switch (get_instr (ram pc))

  -- LET1 of a constant.
  abbrev set_flag : ℕ → Value → Code (Unit {0})
  set_flag shift v = do store v (Ptr.flag shift); pure tt

  abbrev transfer : ℕ → ℕ → Code (Unit {0})
  transfer to from = do v ← r from; v' ← put to v; nz v'

  abbrev load_reg : ℕ → Code (Unit {0})
  load_reg i = do v ← operand; v' ← put i v; nz v'

  abbrev store_reg : ℕ → Code (Unit {0})
  store_reg i = do v ← r i; p ← loperand; store v p; pure tt

  abbrev shift : Bool → Bool → Code (Unit {0})
  shift left rotate = do
    dst ← loperand
    src ← loperand
    v ← arch_shiftrotate arch_6502_info arch_6502_nzc dst src left rotate
    nz v

  abbrev logic : (Value → Value → Value) → Code (Unit {0})
  logic op = do a ← r reg_a; v ← operand; v' ← put reg_a (op a v); nz v'

  abbrev arith : (Value → Value) → Option Ptr → ℕ → Bool → Bool → Code (Unit {0})
  arith f dst i plus_carry plus_one = do
    v ← operand
    v' ← arch_adc arch_6502_info arch_6502_nzc dst (Ptr.gpr i) (f v) plus_carry plus_one
    nz v'

  abbrev step_reg : (Value → Value) → ℕ → Code (Unit {0})
  step_reg f i = do v ← r i; v' ← put i (f v); nz v'

  abbrev step_memory : (Value → Value) → Code (Unit {0})
  step_memory f = do v ← operand; p ← loperand; v' ← store (f v) p; nz v'

  abbrev pub jump : AddMode → Code (Unit {0})
  jump AddMode.ind = do v ← load_ram16 (consts 32 operand_16); store v Ptr.pc; pure tt
  jump _ = pure tt

  -- What the switch emits.
  unfoldable pub instr_switch : Instr → Code (Unit {0})
  unfolding reg let_reg complement inc dec and or xor add poke
  instr_switch Instr.clc = set_flag c_shift false_value
  instr_switch Instr.cld = set_flag d_shift false_value
  instr_switch Instr.cli = set_flag i_shift false_value
  instr_switch Instr.clv = set_flag v_shift false_value
  instr_switch Instr.sec = set_flag c_shift true_value
  instr_switch Instr.sed = set_flag d_shift true_value
  instr_switch Instr.sei = set_flag i_shift true_value
  instr_switch Instr.tax = transfer reg_x reg_a
  instr_switch Instr.tay = transfer reg_y reg_a
  instr_switch Instr.txa = transfer reg_a reg_x
  instr_switch Instr.tya = transfer reg_a reg_y
  instr_switch Instr.tsx = transfer reg_x reg_s
  instr_switch Instr.txs = transfer reg_s reg_x
  instr_switch Instr.lda = load_reg reg_a
  instr_switch Instr.ldx = load_reg reg_x
  instr_switch Instr.ldy = load_reg reg_y
  instr_switch Instr.sta = store_reg reg_a
  instr_switch Instr.stx = store_reg reg_x
  instr_switch Instr.sty = store_reg reg_y
  instr_switch Instr.pha = do v ← r reg_a; push v
  instr_switch Instr.php = do v ← arch_flags_encode arch_6502_info; push v
  instr_switch Instr.pla = do v ← pull; v' ← put reg_a v; nz v'
  instr_switch Instr.plp = do v ← pull; arch_flags_decode arch_6502_info v
  instr_switch Instr.asl = shift true false
  instr_switch Instr.lsr = shift false false
  instr_switch Instr.rol = shift true true
  instr_switch Instr.ror = shift false true
  instr_switch Instr.and = logic and
  instr_switch Instr.ora = logic or
  instr_switch Instr.eor = logic xor
  instr_switch Instr.bit = do v ← operand; nz v
  instr_switch Instr.adc = arith (λ v. v) (some (Ptr.gpr reg_a)) reg_a true false
  instr_switch Instr.sbc = arith (complement 8) (some (Ptr.gpr reg_a)) reg_a true false
  instr_switch Instr.cmp = arith (complement 8) none reg_a false true
  instr_switch Instr.cpx = arith (complement 8) none reg_x false true
  instr_switch Instr.cpy = arith (complement 8) none reg_y false true
  instr_switch Instr.inx = step_reg (inc 8) reg_x
  instr_switch Instr.iny = step_reg (inc 8) reg_y
  instr_switch Instr.dex = step_reg (dec 8) reg_x
  instr_switch Instr.dey = step_reg (dec 8) reg_y
  instr_switch Instr.inc = step_memory (inc 8)
  instr_switch Instr.dec = step_memory (dec 8)
  instr_switch Instr.jmp = jump mode
  instr_switch Instr.jsr = push16 (pc + 2)
  instr_switch Instr.rts = do v ← arch_6502_pull16; store (add v (consts 16 1)) Ptr.pc; pure tt
  instr_switch Instr.brk = arch_6502_trap
  instr_switch Instr.rti = arch_6502_trap
  instr_switch Instr.xxx = arch_6502_trap
  -- NOP and the branches.
  instr_switch _ = pure tt

  -- The code, and the length that it returns.
  unfoldable pub arch_6502_translate_instr : Code (Unit {0})
  unfolding instr_switch
  arch_6502_translate_instr = instr_switch (get_instr (ram pc))

  abbrev pub translated_length : ℕ
  translated_length = get_length mode
