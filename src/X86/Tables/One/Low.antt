-- ===== src/X86/Tables/One/Low.antt =====
-- Entries 0 to 127 of `decode_table_one` (arch/x86/x86_decode.cpp).
use libcpu.Base.{ℕ, List, [], ◌∷◌, ◌|||◌}
use libcpu.X86.Opcode.{
  opc_aaa, opc_aas, opc_adc, opc_add, opc_and, opc_arpl, opc_cmp, opc_daa, opc_das, opc_dec,
  opc_imul, opc_inc, opc_ins, opc_ja, opc_jb, opc_jbe, opc_jg, opc_jge, opc_jl, opc_jle, opc_jnb,
  opc_jne, opc_jno, opc_jns, opc_jo, opc_jpe, opc_jpo, opc_js, opc_jz, opc_or, opc_outs, opc_pop,
  opc_popa, opc_push, opc_pusha, opc_sbb, opc_sub, opc_xor,
}
use libcpu.X86.Flags.{width_byte, width_dword, width_word}
use libcpu.X86.AddrMod.{
  addrmod_imm, addrmod_imm_acc, addrmod_implied, addrmod_reg, addrmod_reg_rm, addrmod_rm_imm8_reg,
  addrmod_rm_imm_reg, addrmod_rm_reg, addrmod_seg2_reg,
}
use libcpu.X86.Field.{
  address_size_override, cs_override, ds_override, es_override, fs_override, gs_override,
  is_two_byte_instr, jb, opc_diff_syntax, opc_prefix, operand_size_override, seg_override,
  ss_override,
}

unfoldable pub decode_table_one_low : List ℕ
decode_table_one_low =
    (opc_add ||| addrmod_reg_rm ||| width_byte)
    ∷ (opc_add ||| addrmod_reg_rm ||| width_dword)
    ∷ (opc_add ||| addrmod_rm_reg ||| width_byte)
    ∷ (opc_add ||| addrmod_rm_reg ||| width_dword)
    ∷ (opc_add ||| addrmod_imm_acc ||| width_byte)
    ∷ (opc_add ||| addrmod_imm_acc ||| width_dword)
    ∷ (opc_push ||| addrmod_seg2_reg ||| width_dword)
    ∷ (opc_pop ||| addrmod_seg2_reg ||| width_dword)
    ∷ (opc_or ||| addrmod_reg_rm ||| width_byte)
    ∷ (opc_or ||| addrmod_reg_rm ||| width_dword)
    ∷ (opc_or ||| addrmod_rm_reg ||| width_byte)
    ∷ (opc_or ||| addrmod_rm_reg ||| width_dword)
    ∷ (opc_or ||| addrmod_imm_acc ||| width_byte)
    ∷ (opc_or ||| addrmod_imm_acc ||| width_dword)
    ∷ (opc_push ||| addrmod_seg2_reg ||| width_dword)
    ∷ (opc_prefix is_two_byte_instr 1)
    ∷ (opc_adc ||| addrmod_reg_rm ||| width_byte)
    ∷ (opc_adc ||| addrmod_reg_rm ||| width_dword)
    ∷ (opc_adc ||| addrmod_rm_reg ||| width_byte)
    ∷ (opc_adc ||| addrmod_rm_reg ||| width_dword)
    ∷ (opc_adc ||| addrmod_imm_acc ||| width_byte)
    ∷ (opc_adc ||| addrmod_imm_acc ||| width_dword)
    ∷ (opc_push ||| addrmod_seg2_reg ||| width_dword)
    ∷ (opc_pop ||| addrmod_seg2_reg ||| width_dword)
    ∷ (opc_sbb ||| addrmod_reg_rm ||| width_byte)
    ∷ (opc_sbb ||| addrmod_reg_rm ||| width_dword)
    ∷ (opc_sbb ||| addrmod_rm_reg ||| width_byte)
    ∷ (opc_sbb ||| addrmod_rm_reg ||| width_dword)
    ∷ (opc_sbb ||| addrmod_imm_acc ||| width_byte)
    ∷ (opc_sbb ||| addrmod_imm_acc ||| width_dword)
    ∷ (opc_push ||| addrmod_seg2_reg ||| width_dword)
    ∷ (opc_pop ||| addrmod_seg2_reg ||| width_dword)
    ∷ (opc_and ||| addrmod_reg_rm ||| width_byte)
    ∷ (opc_and ||| addrmod_reg_rm ||| width_dword)
    ∷ (opc_and ||| addrmod_rm_reg ||| width_byte)
    ∷ (opc_and ||| addrmod_rm_reg ||| width_dword)
    ∷ (opc_and ||| addrmod_imm_acc ||| width_byte)
    ∷ (opc_and ||| addrmod_imm_acc ||| width_dword)
    ∷ (opc_prefix seg_override es_override)
    ∷ (opc_daa ||| addrmod_implied)
    ∷ (opc_sub ||| addrmod_reg_rm ||| width_byte)
    ∷ (opc_sub ||| addrmod_reg_rm ||| width_dword)
    ∷ (opc_sub ||| addrmod_rm_reg ||| width_byte)
    ∷ (opc_sub ||| addrmod_rm_reg ||| width_dword)
    ∷ (opc_sub ||| addrmod_imm_acc ||| width_byte)
    ∷ (opc_sub ||| addrmod_imm_acc ||| width_dword)
    ∷ (opc_prefix seg_override cs_override)
    ∷ (opc_das ||| addrmod_implied)
    ∷ (opc_xor ||| addrmod_reg_rm ||| width_byte)
    ∷ (opc_xor ||| addrmod_reg_rm ||| width_dword)
    ∷ (opc_xor ||| addrmod_rm_reg ||| width_byte)
    ∷ (opc_xor ||| addrmod_rm_reg ||| width_dword)
    ∷ (opc_xor ||| addrmod_imm_acc ||| width_byte)
    ∷ (opc_xor ||| addrmod_imm_acc ||| width_dword)
    ∷ (opc_prefix seg_override ss_override)
    ∷ (opc_aaa ||| addrmod_implied)
    ∷ (opc_cmp ||| addrmod_reg_rm ||| width_byte)
    ∷ (opc_cmp ||| addrmod_reg_rm ||| width_dword)
    ∷ (opc_cmp ||| addrmod_rm_reg ||| width_byte)
    ∷ (opc_cmp ||| addrmod_rm_reg ||| width_dword)
    ∷ (opc_cmp ||| addrmod_imm_acc ||| width_byte)
    ∷ (opc_cmp ||| addrmod_imm_acc ||| width_dword)
    ∷ (opc_prefix seg_override ds_override)
    ∷ (opc_aas ||| addrmod_implied)
    ∷ (opc_inc ||| addrmod_reg ||| width_dword)
    ∷ (opc_inc ||| addrmod_reg ||| width_dword)
    ∷ (opc_inc ||| addrmod_reg ||| width_dword)
    ∷ (opc_inc ||| addrmod_reg ||| width_dword)
    ∷ (opc_inc ||| addrmod_reg ||| width_dword)
    ∷ (opc_inc ||| addrmod_reg ||| width_dword)
    ∷ (opc_inc ||| addrmod_reg ||| width_dword)
    ∷ (opc_inc ||| addrmod_reg ||| width_dword)
    ∷ (opc_dec ||| addrmod_reg ||| width_dword)
    ∷ (opc_dec ||| addrmod_reg ||| width_dword)
    ∷ (opc_dec ||| addrmod_reg ||| width_dword)
    ∷ (opc_dec ||| addrmod_reg ||| width_dword)
    ∷ (opc_dec ||| addrmod_reg ||| width_dword)
    ∷ (opc_dec ||| addrmod_reg ||| width_dword)
    ∷ (opc_dec ||| addrmod_reg ||| width_dword)
    ∷ (opc_dec ||| addrmod_reg ||| width_dword)
    ∷ (opc_push ||| addrmod_reg ||| width_dword)
    ∷ (opc_push ||| addrmod_reg ||| width_dword)
    ∷ (opc_push ||| addrmod_reg ||| width_dword)
    ∷ (opc_push ||| addrmod_reg ||| width_dword)
    ∷ (opc_push ||| addrmod_reg ||| width_dword)
    ∷ (opc_push ||| addrmod_reg ||| width_dword)
    ∷ (opc_push ||| addrmod_reg ||| width_dword)
    ∷ (opc_push ||| addrmod_reg ||| width_dword)
    ∷ (opc_pop ||| addrmod_reg ||| width_dword)
    ∷ (opc_pop ||| addrmod_reg ||| width_dword)
    ∷ (opc_pop ||| addrmod_reg ||| width_dword)
    ∷ (opc_pop ||| addrmod_reg ||| width_dword)
    ∷ (opc_pop ||| addrmod_reg ||| width_dword)
    ∷ (opc_pop ||| addrmod_reg ||| width_dword)
    ∷ (opc_pop ||| addrmod_reg ||| width_dword)
    ∷ (opc_pop ||| addrmod_reg ||| width_dword)
    ∷ (opc_pusha ||| addrmod_implied ||| width_dword)
    ∷ (opc_popa ||| addrmod_implied ||| width_dword)
    ∷ (opc_diff_syntax 0 ||| addrmod_rm_reg)
    ∷ (opc_arpl ||| addrmod_reg_rm ||| width_word)
    ∷ (opc_prefix seg_override fs_override)
    ∷ (opc_prefix seg_override gs_override)
    ∷ (opc_prefix operand_size_override 1)
    ∷ (opc_prefix address_size_override 1)
    ∷ (opc_push ||| addrmod_imm ||| width_dword)
    ∷ (opc_imul ||| addrmod_rm_imm_reg ||| width_dword)
    ∷ (opc_push ||| addrmod_imm ||| width_byte)
    ∷ (opc_imul ||| addrmod_rm_imm8_reg ||| width_dword)
    ∷ (opc_ins ||| addrmod_implied ||| width_byte)
    ∷ (opc_ins ||| addrmod_implied ||| width_dword)
    ∷ (opc_outs ||| addrmod_implied ||| width_byte)
    ∷ (opc_outs ||| addrmod_implied ||| width_dword)
    ∷ (opc_jo ||| jb)
    ∷ (opc_jno ||| jb)
    ∷ (opc_jb ||| jb)
    ∷ (opc_jnb ||| jb)
    ∷ (opc_jz ||| jb)
    ∷ (opc_jne ||| jb)
    ∷ (opc_jbe ||| jb)
    ∷ (opc_ja ||| jb)
    ∷ (opc_js ||| jb)
    ∷ (opc_jns ||| jb)
    ∷ (opc_jpe ||| jb)
    ∷ (opc_jpo ||| jb)
    ∷ (opc_jl ||| jb)
    ∷ (opc_jge ||| jb)
    ∷ (opc_jle ||| jb)
    ∷ (opc_jg ||| jb)
    ∷ []
