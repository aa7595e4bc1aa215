-- ===== src/X86/Instr.antt =====
-- `x86_operand` and `x86_instr` of arch/x86/x86_decode.h. An anonymous union is one field, and a
-- signed field is the 32 bits that hold it.
use libcpu.Base.{ℕ, List, get_or, replicate, has, Bool}
use libcpu.X86.Field.{address_size_override, operand_size_override}

pub data OpType : Type 0 where
  imm mem moffset mem_disp reg reg8 seg_reg cr_reg dbg_reg rel far_ptr sib_mem sib_disp : OpType

-- `imm` is the union of `imm` and `rel`.
pub record X86Operand : Type 0 where
  pub optype : OpType
  pub reg : ℕ
  pub seg_sel : ℕ
  pub disp : ℕ
  pub imm : ℕ

-- `imm_data0` and `imm_data1` are the union of `imm_data` and `rel_data`; `src`, `dst` and `third`
-- are the array `operand`; `prefix_values` is the union with the named prefixes.
pub record X86Instr : Type 0 where
  pub nr_bytes : ℕ
  pub opcode_byte : ℕ
  pub mod_field : ℕ
  pub rm : ℕ
  pub reg_opc : ℕ
  pub base : ℕ
  pub idx : ℕ
  pub scale : ℕ
  pub disp : ℕ
  pub imm_data0 : ℕ
  pub imm_data1 : ℕ
  pub opcode : ℕ
  pub flags : ℕ
  pub prefix_values : List ℕ
  pub src : X86Operand
  pub dst : X86Operand
  pub third : X86Operand

abbrev pub zero_operand : X86Operand
zero_operand = record { optype = OpType.imm; reg = 0; seg_sel = 0; disp = 0; imm = 0 }

-- `*instr = { 0 }`
abbrev pub zero_instr : X86Instr
zero_instr = record {
  nr_bytes = 0;
  opcode_byte = 0;
  mod_field = 0;
  rm = 0;
  reg_opc = 0;
  base = 0;
  idx = 0;
  scale = 0;
  disp = 0;
  imm_data0 = 0;
  imm_data1 = 0;
  opcode = 0;
  flags = 0;
  prefix_values = replicate 6 0;
  src = zero_operand;
  dst = zero_operand;
  third = zero_operand;
}

-- The members of the union that the decoder reads by name.
abbrev pub addr_size_override : X86Instr → ℕ
addr_size_override i = get_or i.prefix_values address_size_override 0

abbrev pub op_size_override : X86Instr → ℕ
op_size_override i = get_or i.prefix_values operand_size_override 0

abbrev pub has_flag : X86Instr → ℕ → Bool
has_flag i mask = has i.flags mask
