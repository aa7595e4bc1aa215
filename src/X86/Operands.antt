-- ===== src/X86/Operands.antt =====
-- The operands of a decoded instruction (arch/x86/x86_decode.cpp).
use libcpu.Base.{ℕ, ◌%◌, ◌^◌, [], ◌∷◌, ◌&&&◌, ◌>>>◌, ◌==◌, if◌then◌else◌, is_case}
use libcpu.X86.Flags.{
  mod_rm, sib, dir_reversed, src_mask, src_none, src_rel, src_imm, src_imm8, src_imm48, src_reg,
  src_seg2_reg, src_seg3_reg, src_cr_reg, src_dbg_reg, src_acc, src_moffset, src_mem,
  src_mem_disp_byte, src_mem_disp_word, src_mem_disp_dword, dst_mask, dst_none, dst_imm16, dst_reg,
  dst_seg3_reg, dst_cr_reg, dst_dbg_reg, dst_acc, dst_moffset, dst_mem, dst_mem_disp_byte,
  dst_mem_disp_word, dst_mem_disp_dword, op3_mask, op3_none, op3_imm, op3_imm8, op3_cl,
}
use libcpu.X86.Instr.{OpType, X86Operand, X86Instr, has_flag}

-- A store of the type and one more field.
abbrev set_reg : X86Operand → OpType → ℕ → X86Operand
set_reg o t r = record o { optype = t; reg = r }

abbrev set_imm : X86Operand → OpType → ℕ → X86Operand
set_imm o t v = record o { optype = t; imm = v }

abbrev set_offset : X86Operand → OpType → ℕ → X86Operand
set_offset o t d = record o { optype = t; disp = d }

unfoldable pub decode_third_operand : X86Instr → X86Instr
decode_third_operand i =
    let kind = i.flags &&& op3_mask in
    if kind == op3_none
    then i
    else if is_case kind (op3_imm ∷ op3_imm8 ∷ [])
    then record i { third = set_imm i.third OpType.imm i.imm_data0 }
    else if kind == op3_cl
    then record i { third = set_reg i.third OpType.reg8 1 }
    else i

abbrev pub decode_dst_reg : X86Instr → ℕ
decode_dst_reg i =
    if has_flag i mod_rm
    then if has_flag i dir_reversed then i.rm else i.reg_opc
    else i.opcode_byte &&& 0x07

abbrev pub decode_dst_mem : X86Instr → ℕ
decode_dst_mem i = if has_flag i dir_reversed then i.rm else i.reg_opc

abbrev pub decode_src_reg : X86Instr → ℕ
decode_src_reg i =
    if has_flag i mod_rm
    then if has_flag i dir_reversed then i.reg_opc else i.rm
    else i.opcode_byte &&& 0x07

abbrev pub decode_src_mem : X86Instr → ℕ
decode_src_mem i = if has_flag i dir_reversed then i.reg_opc else i.rm

-- The cases `*_MEM` and `*_MEM_DISP_*`, which are the same in both switches but for the register.
abbrev mem_operand : X86Instr → ℕ → X86Operand → X86Operand
mem_operand i r o =
    if has_flag i sib then record o { optype = OpType.sib_mem } else set_reg o OpType.mem r

abbrev mem_disp_operand : X86Instr → X86Operand → X86Operand
mem_disp_operand i o =
    if has_flag i sib
    then set_offset o OpType.sib_disp i.disp
    else record o { optype = OpType.mem_disp; reg = i.rm; disp = i.disp }

abbrev dst_operand : X86Instr → X86Operand → X86Operand
dst_operand i o =
    let kind = i.flags &&& dst_mask in
    if kind == dst_none
    then o
    else if kind == dst_imm16
    then set_imm o OpType.imm i.imm_data1
    else if kind == dst_reg
    then set_reg o OpType.reg (decode_dst_reg i)
    else if kind == dst_seg3_reg
    then set_reg o OpType.seg_reg i.reg_opc
    else if kind == dst_cr_reg
    then set_reg o OpType.cr_reg i.reg_opc
    else if kind == dst_dbg_reg
    then set_reg o OpType.dbg_reg i.reg_opc
    else if kind == dst_acc
    then set_reg o OpType.reg 0
    else if kind == dst_moffset
    then set_offset o OpType.moffset i.disp
    else if kind == dst_mem
    then mem_operand i (decode_dst_mem i) o
    else if is_case kind (dst_mem_disp_byte ∷ dst_mem_disp_word ∷ dst_mem_disp_dword ∷ [])
    then mem_disp_operand i o
    else o

unfoldable pub decode_dst_operand : X86Instr → X86Instr
decode_dst_operand i = record i { dst = dst_operand i i.dst }

abbrev src_operand : X86Instr → X86Operand → X86Operand
src_operand i o =
    let kind = i.flags &&& src_mask in
    if kind == src_none
    then o
    else if kind == src_rel
    then set_imm o OpType.rel i.imm_data0
    else if is_case kind (src_imm ∷ src_imm8 ∷ [])
    then set_imm o OpType.imm i.imm_data0
    else if kind == src_imm48
    then record o { optype = OpType.far_ptr; imm = i.imm_data0; seg_sel = i.imm_data1 % 2 ^ 16 }
    else if kind == src_reg
    then set_reg o OpType.reg (decode_src_reg i)
    else if kind == src_seg2_reg
    then set_reg o OpType.seg_reg (i.opcode_byte >>> 3)
    else if kind == src_seg3_reg
    then set_reg o OpType.seg_reg
        (if has_flag i mod_rm then i.reg_opc else (i.opcode_byte &&& 0x38) >>> 3)
    else if kind == src_cr_reg
    then set_reg o OpType.cr_reg i.reg_opc
    else if kind == src_dbg_reg
    then set_reg o OpType.dbg_reg i.reg_opc
    else if kind == src_acc
    then set_reg o OpType.reg 0
    else if kind == src_moffset
    then set_offset o OpType.moffset i.disp
    else if kind == src_mem
    then mem_operand i (decode_src_mem i) o
    else if is_case kind (src_mem_disp_byte ∷ src_mem_disp_word ∷ src_mem_disp_dword ∷ [])
    then mem_disp_operand i o
    else o

unfoldable pub decode_src_operand : X86Instr → X86Instr
decode_src_operand i = record i { src = src_operand i i.src }
