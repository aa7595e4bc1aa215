-- ===== src/X86/Tables/Two/High.antt =====
-- Entries 128 to 255 of `decode_table_two` (arch/x86/x86_decode.cpp).
use libcpu.Base.{ℕ, List, [], ◌∷◌, ◌|||◌}
use libcpu.X86.Opcode.{
  opc_bsf, opc_bsr, opc_bswap, opc_bt, opc_btc, opc_btr, opc_bts, opc_cmpxchg, opc_cpuid, opc_imul,
  opc_ja, opc_jb, opc_jbe, opc_jg, opc_jge, opc_jl, opc_jle, opc_jnb, opc_jne, opc_jno, opc_jns,
  opc_jo, opc_jpe, opc_jpo, opc_js, opc_jz, opc_lfs, opc_lgs, opc_lss, opc_pop, opc_push, opc_rsm,
  opc_seta, opc_setb, opc_setbe, opc_setg, opc_setge, opc_setl, opc_setle, opc_setnb, opc_setne,
  opc_setno, opc_setns, opc_seto, opc_setpe, opc_setpo, opc_sets, opc_setz, opc_shld, opc_shrd,
  opc_ud1, opc_xadd,
}
use libcpu.X86.Flags.{width_byte, width_dword, width_qword}
use libcpu.X86.AddrMod.{
  addrmod_imm8_rm, addrmod_implied, addrmod_reg, addrmod_reg_cl_rm, addrmod_reg_imm8_rm,
  addrmod_reg_rm, addrmod_rm, addrmod_rm_reg, addrmod_seg3_reg,
}
use libcpu.X86.Field.{jv, opc_diff_syntax, opc_group, opc_undefined, sb}

unfoldable pub decode_table_two_high : List ℕ
decode_table_two_high =
    (opc_jo ||| jv)
    ∷ (opc_jno ||| jv)
    ∷ (opc_jb ||| jv)
    ∷ (opc_jnb ||| jv)
    ∷ (opc_jz ||| jv)
    ∷ (opc_jne ||| jv)
    ∷ (opc_jbe ||| jv)
    ∷ (opc_ja ||| jv)
    ∷ (opc_js ||| jv)
    ∷ (opc_jns ||| jv)
    ∷ (opc_jpe ||| jv)
    ∷ (opc_jpo ||| jv)
    ∷ (opc_jl ||| jv)
    ∷ (opc_jge ||| jv)
    ∷ (opc_jle ||| jv)
    ∷ (opc_jg ||| jv)
    ∷ (opc_seto ||| sb)
    ∷ (opc_setno ||| sb)
    ∷ (opc_setb ||| sb)
    ∷ (opc_setnb ||| sb)
    ∷ (opc_setz ||| sb)
    ∷ (opc_setne ||| sb)
    ∷ (opc_setbe ||| sb)
    ∷ (opc_seta ||| sb)
    ∷ (opc_sets ||| sb)
    ∷ (opc_setns ||| sb)
    ∷ (opc_setpe ||| sb)
    ∷ (opc_setpo ||| sb)
    ∷ (opc_setl ||| sb)
    ∷ (opc_setge ||| sb)
    ∷ (opc_setle ||| sb)
    ∷ (opc_setg ||| sb)
    ∷ (opc_push ||| addrmod_seg3_reg ||| width_dword)
    ∷ (opc_pop ||| addrmod_seg3_reg ||| width_dword)
    ∷ (opc_cpuid ||| addrmod_implied)
    ∷ (opc_bt ||| addrmod_reg_rm ||| width_dword)
    ∷ (opc_shld ||| addrmod_reg_imm8_rm ||| width_dword)
    ∷ (opc_shld ||| addrmod_reg_cl_rm ||| width_dword)
    ∷ opc_undefined
    ∷ opc_undefined
    ∷ (opc_push ||| addrmod_seg3_reg ||| width_dword)
    ∷ (opc_pop ||| addrmod_seg3_reg ||| width_dword)
    ∷ (opc_rsm ||| addrmod_implied)
    ∷ (opc_bts ||| addrmod_reg_rm ||| width_dword)
    ∷ (opc_shrd ||| addrmod_reg_imm8_rm ||| width_dword)
    ∷ (opc_shrd ||| addrmod_reg_cl_rm ||| width_dword)
    ∷ opc_undefined
    ∷ (opc_imul ||| addrmod_rm_reg ||| width_dword)
    ∷ (opc_cmpxchg ||| addrmod_reg_rm ||| width_byte)
    ∷ (opc_cmpxchg ||| addrmod_reg_rm ||| width_dword)
    ∷ (opc_lss ||| addrmod_rm_reg ||| width_dword)
    ∷ (opc_btr ||| addrmod_reg_rm ||| width_dword)
    ∷ (opc_lfs ||| addrmod_rm_reg ||| width_dword)
    ∷ (opc_lgs ||| addrmod_rm_reg ||| width_dword)
    ∷ (opc_diff_syntax 7 ||| addrmod_rm_reg ||| width_dword)
    ∷ (opc_diff_syntax 8 ||| addrmod_rm_reg ||| width_dword)
    ∷ opc_undefined
    ∷ (opc_ud1 ||| addrmod_implied)
    ∷ (opc_group 8 ||| addrmod_imm8_rm ||| width_dword)
    ∷ (opc_btc ||| addrmod_reg_rm ||| width_dword)
    ∷ (opc_bsf ||| addrmod_rm_reg ||| width_dword)
    ∷ (opc_bsr ||| addrmod_rm_reg ||| width_dword)
    ∷ (opc_diff_syntax 9 ||| addrmod_rm_reg ||| width_dword)
    ∷ (opc_diff_syntax 10 ||| addrmod_rm_reg ||| width_dword)
    ∷ (opc_xadd ||| addrmod_reg_rm ||| width_byte)
    ∷ (opc_xadd ||| addrmod_reg_rm ||| width_dword)
    ∷ opc_undefined
    ∷ opc_undefined
    ∷ opc_undefined
    ∷ opc_undefined
    ∷ opc_undefined
    ∷ (opc_group 9 ||| addrmod_rm ||| width_qword)
    ∷ (opc_bswap ||| addrmod_reg ||| width_dword)
    ∷ (opc_bswap ||| addrmod_reg ||| width_dword)
    ∷ (opc_bswap ||| addrmod_reg ||| width_dword)
    ∷ (opc_bswap ||| addrmod_reg ||| width_dword)
    ∷ (opc_bswap ||| addrmod_reg ||| width_dword)
    ∷ (opc_bswap ||| addrmod_reg ||| width_dword)
    ∷ (opc_bswap ||| addrmod_reg ||| width_dword)
    ∷ (opc_bswap ||| addrmod_reg ||| width_dword)
    ∷ opc_undefined
    ∷ opc_undefined
    ∷ opc_undefined
    ∷ opc_undefined
    ∷ opc_undefined
    ∷ opc_undefined
    ∷ opc_undefined
    ∷ opc_undefined
    ∷ opc_undefined
    ∷ opc_undefined
    ∷ opc_undefined
    ∷ opc_undefined
    ∷ opc_undefined
    ∷ opc_undefined
    ∷ opc_undefined
    ∷ opc_undefined
    ∷ opc_undefined
    ∷ opc_undefined
    ∷ opc_undefined
    ∷ opc_undefined
    ∷ opc_undefined
    ∷ opc_undefined
    ∷ opc_undefined
    ∷ opc_undefined
    ∷ opc_undefined
    ∷ opc_undefined
    ∷ opc_undefined
    ∷ opc_undefined
    ∷ opc_undefined
    ∷ opc_undefined
    ∷ opc_undefined
    ∷ opc_undefined
    ∷ opc_undefined
    ∷ opc_undefined
    ∷ opc_undefined
    ∷ opc_undefined
    ∷ opc_undefined
    ∷ opc_undefined
    ∷ opc_undefined
    ∷ opc_undefined
    ∷ opc_undefined
    ∷ opc_undefined
    ∷ opc_undefined
    ∷ opc_undefined
    ∷ opc_undefined
    ∷ opc_undefined
    ∷ opc_undefined
    ∷ opc_undefined
    ∷ []
