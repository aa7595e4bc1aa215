-- ===== src/X86/Tables/One/High.antt =====
-- Entries 128 to 255 of `decode_table_one` (arch/x86/x86_decode.cpp).
use libcpu.Base.{ℕ, List, [], ◌∷◌, ◌|||◌}
use libcpu.X86.Opcode.{
  opc_aad, opc_aam, opc_call, opc_clc, opc_cld, opc_cli, opc_cmc, opc_cmps, opc_enter, opc_hlt,
  opc_in, opc_int, opc_int3, opc_into, opc_iret, opc_jecxz, opc_jmp, opc_lahf, opc_lds, opc_lea,
  opc_leave, opc_les, opc_lods, opc_loop, opc_loope, opc_loopne, opc_mov, opc_movs, opc_nop,
  opc_out, opc_pop, opc_popf, opc_pushf, opc_ret, opc_sahf, opc_scas, opc_stc, opc_std, opc_sti,
  opc_stos, opc_test, opc_xchg, opc_xlatb,
}
use libcpu.X86.Flags.{width_byte, width_dword, width_word}
use libcpu.X86.AddrMod.{
  addrmod_acc_moffset, addrmod_acc_reg, addrmod_far_ptr, addrmod_imm, addrmod_imm8,
  addrmod_imm8_imm16, addrmod_imm8_rm, addrmod_imm_acc, addrmod_imm_reg, addrmod_imm_rm,
  addrmod_implied, addrmod_moffset_acc, addrmod_reg_rm, addrmod_rel, addrmod_rm, addrmod_rm_reg,
  addrmod_rm_seg3_reg, addrmod_seg3_reg_rm,
}
use libcpu.X86.Field.{
  jb, jv, lock_prefix, opc_diff_syntax, opc_group, opc_prefix, opc_undefined, rep_override,
  repnz_prefix, repz_prefix,
}

unfoldable pub decode_table_one_high : List ℕ
decode_table_one_high =
    (opc_group 1 ||| addrmod_imm8_rm ||| width_byte)
    ∷ (opc_group 1 ||| addrmod_imm_rm ||| width_dword)
    ∷ (opc_group 1 ||| addrmod_imm8_rm ||| width_byte)
    ∷ (opc_group 1 ||| addrmod_imm8_rm ||| width_dword)
    ∷ (opc_test ||| addrmod_reg_rm ||| width_byte)
    ∷ (opc_test ||| addrmod_reg_rm ||| width_dword)
    ∷ (opc_xchg ||| addrmod_reg_rm ||| width_byte)
    ∷ (opc_xchg ||| addrmod_reg_rm ||| width_dword)
    ∷ (opc_mov ||| addrmod_reg_rm ||| width_byte)
    ∷ (opc_mov ||| addrmod_reg_rm ||| width_dword)
    ∷ (opc_mov ||| addrmod_rm_reg ||| width_byte)
    ∷ (opc_mov ||| addrmod_rm_reg ||| width_dword)
    ∷ (opc_mov ||| addrmod_seg3_reg_rm ||| width_word)
    ∷ (opc_lea ||| addrmod_rm_reg ||| width_dword)
    ∷ (opc_mov ||| addrmod_rm_seg3_reg ||| width_word)
    ∷ (opc_pop ||| addrmod_rm ||| width_dword)
    ∷ (opc_nop ||| addrmod_implied)
    ∷ (opc_xchg ||| addrmod_acc_reg ||| width_dword)
    ∷ (opc_xchg ||| addrmod_acc_reg ||| width_dword)
    ∷ (opc_xchg ||| addrmod_acc_reg ||| width_dword)
    ∷ (opc_xchg ||| addrmod_acc_reg ||| width_dword)
    ∷ (opc_xchg ||| addrmod_acc_reg ||| width_dword)
    ∷ (opc_xchg ||| addrmod_acc_reg ||| width_dword)
    ∷ (opc_xchg ||| addrmod_acc_reg ||| width_dword)
    ∷ (opc_diff_syntax 1 ||| addrmod_implied)
    ∷ (opc_diff_syntax 2 ||| addrmod_implied)
    ∷ (opc_diff_syntax 3 ||| addrmod_far_ptr ||| width_dword)
    ∷ opc_undefined
    ∷ (opc_pushf ||| addrmod_implied)
    ∷ (opc_popf ||| addrmod_implied)
    ∷ (opc_sahf ||| addrmod_implied)
    ∷ (opc_lahf ||| addrmod_implied)
    ∷ (opc_mov ||| addrmod_moffset_acc ||| width_byte)
    ∷ (opc_mov ||| addrmod_moffset_acc ||| width_dword)
    ∷ (opc_mov ||| addrmod_acc_moffset ||| width_byte)
    ∷ (opc_mov ||| addrmod_acc_moffset ||| width_dword)
    ∷ (opc_movs ||| addrmod_implied ||| width_byte)
    ∷ (opc_movs ||| addrmod_implied ||| width_dword)
    ∷ (opc_cmps ||| addrmod_implied ||| width_byte)
    ∷ (opc_cmps ||| addrmod_implied ||| width_dword)
    ∷ (opc_test ||| addrmod_imm_acc ||| width_byte)
    ∷ (opc_test ||| addrmod_imm_acc ||| width_dword)
    ∷ (opc_stos ||| addrmod_implied ||| width_byte)
    ∷ (opc_stos ||| addrmod_implied ||| width_dword)
    ∷ (opc_lods ||| addrmod_implied ||| width_byte)
    ∷ (opc_lods ||| addrmod_implied ||| width_dword)
    ∷ (opc_scas ||| addrmod_implied ||| width_byte)
    ∷ (opc_scas ||| addrmod_implied ||| width_dword)
    ∷ (opc_mov ||| addrmod_imm_reg ||| width_byte)
    ∷ (opc_mov ||| addrmod_imm_reg ||| width_byte)
    ∷ (opc_mov ||| addrmod_imm_reg ||| width_byte)
    ∷ (opc_mov ||| addrmod_imm_reg ||| width_byte)
    ∷ (opc_mov ||| addrmod_imm_reg ||| width_byte)
    ∷ (opc_mov ||| addrmod_imm_reg ||| width_byte)
    ∷ (opc_mov ||| addrmod_imm_reg ||| width_byte)
    ∷ (opc_mov ||| addrmod_imm_reg ||| width_byte)
    ∷ (opc_mov ||| addrmod_imm_reg ||| width_dword)
    ∷ (opc_mov ||| addrmod_imm_reg ||| width_dword)
    ∷ (opc_mov ||| addrmod_imm_reg ||| width_dword)
    ∷ (opc_mov ||| addrmod_imm_reg ||| width_dword)
    ∷ (opc_mov ||| addrmod_imm_reg ||| width_dword)
    ∷ (opc_mov ||| addrmod_imm_reg ||| width_dword)
    ∷ (opc_mov ||| addrmod_imm_reg ||| width_dword)
    ∷ (opc_mov ||| addrmod_imm_reg ||| width_dword)
    ∷ (opc_group 2 ||| addrmod_imm8_rm ||| width_byte)
    ∷ (opc_group 2 ||| addrmod_imm8_rm ||| width_dword)
    ∷ (opc_ret ||| addrmod_imm ||| width_word)
    ∷ (opc_ret ||| addrmod_implied)
    ∷ (opc_les ||| addrmod_rm_reg ||| width_dword)
    ∷ (opc_lds ||| addrmod_rm_reg ||| width_dword)
    ∷ (opc_mov ||| addrmod_imm8_rm ||| width_byte)
    ∷ (opc_mov ||| addrmod_imm_rm ||| width_dword)
    ∷ (opc_enter ||| addrmod_imm8_imm16 ||| width_word)
    ∷ (opc_leave ||| addrmod_implied)
    ∷ (opc_diff_syntax 4 ||| addrmod_imm ||| width_word)
    ∷ (opc_diff_syntax 5 ||| addrmod_implied)
    ∷ (opc_int3 ||| addrmod_implied)
    ∷ (opc_int ||| addrmod_imm ||| width_byte)
    ∷ (opc_into ||| addrmod_implied)
    ∷ (opc_iret ||| addrmod_implied)
    ∷ (opc_group 2 ||| addrmod_rm ||| width_byte)
    ∷ (opc_group 2 ||| addrmod_rm ||| width_dword)
    ∷ (opc_group 2 ||| addrmod_rm ||| width_byte)
    ∷ (opc_group 2 ||| addrmod_rm ||| width_dword)
    ∷ (opc_aam ||| addrmod_imm ||| width_byte)
    ∷ (opc_aad ||| addrmod_imm ||| width_byte)
    ∷ opc_undefined
    ∷ (opc_xlatb ||| addrmod_implied)
    ∷ opc_undefined
    ∷ opc_undefined
    ∷ opc_undefined
    ∷ opc_undefined
    ∷ opc_undefined
    ∷ opc_undefined
    ∷ opc_undefined
    ∷ opc_undefined
    ∷ (opc_loopne ||| addrmod_rel ||| width_byte)
    ∷ (opc_loope ||| addrmod_rel ||| width_byte)
    ∷ (opc_loop ||| addrmod_rel ||| width_byte)
    ∷ (opc_jecxz ||| jb)
    ∷ (opc_in ||| addrmod_imm ||| width_byte)
    ∷ (opc_in ||| addrmod_imm8 ||| width_dword)
    ∷ (opc_out ||| addrmod_imm ||| width_byte)
    ∷ (opc_out ||| addrmod_imm8 ||| width_dword)
    ∷ (opc_call ||| jv)
    ∷ (opc_jmp ||| jv)
    ∷ (opc_diff_syntax 6 ||| addrmod_far_ptr ||| width_dword)
    ∷ (opc_jmp ||| jb)
    ∷ (opc_in ||| addrmod_implied ||| width_byte)
    ∷ (opc_in ||| addrmod_implied ||| width_dword)
    ∷ (opc_out ||| addrmod_implied ||| width_byte)
    ∷ (opc_out ||| addrmod_implied ||| width_dword)
    ∷ (opc_prefix lock_prefix 1)
    ∷ opc_undefined
    ∷ (opc_prefix rep_override repnz_prefix)
    ∷ (opc_prefix rep_override repz_prefix)
    ∷ (opc_hlt ||| addrmod_implied)
    ∷ (opc_cmc ||| addrmod_implied)
    ∷ (opc_group 3 ||| addrmod_rm ||| width_byte)
    ∷ (opc_group 3 ||| addrmod_rm ||| width_dword)
    ∷ (opc_clc ||| addrmod_implied)
    ∷ (opc_stc ||| addrmod_implied)
    ∷ (opc_cli ||| addrmod_implied)
    ∷ (opc_sti ||| addrmod_implied)
    ∷ (opc_cld ||| addrmod_implied)
    ∷ (opc_std ||| addrmod_implied)
    ∷ (opc_group 4 ||| addrmod_rm ||| width_byte)
    ∷ (opc_group 5 ||| addrmod_rm ||| width_dword)
    ∷ []
