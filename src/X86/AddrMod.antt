-- ===== src/X86/AddrMod.antt =====
-- The addressing modes, `x86_addrmod` of arch/x86/x86_decode.h.
use libcpu.Base.{ℕ, ◌|||◌}
use libcpu.X86.Flags.{
  dir_reversed, dst_acc, dst_cr_reg, dst_dbg_reg, dst_imm16, dst_moffset, dst_none, dst_reg,
  dst_seg3_reg, mod_rm, op3_cl, op3_imm, op3_imm8, op3_none, src_acc, src_cr_reg, src_dbg_reg,
  src_imm, src_imm48, src_imm8, src_moffset, src_none, src_reg, src_rel, src_seg2_reg, src_seg3_reg,
}

abbrev pub addrmod_acc_moffset : ℕ
addrmod_acc_moffset = src_acc ||| dst_moffset ||| op3_none

abbrev pub addrmod_acc_reg : ℕ
addrmod_acc_reg = src_acc ||| dst_reg ||| op3_none

abbrev pub addrmod_imm : ℕ
addrmod_imm = src_imm ||| dst_none ||| op3_none

abbrev pub addrmod_imm8 : ℕ
addrmod_imm8 = src_imm8 ||| dst_none ||| op3_none

abbrev pub addrmod_imm8_rm : ℕ
addrmod_imm8_rm = src_imm8 ||| mod_rm ||| dir_reversed ||| op3_none

abbrev pub addrmod_imm_rm : ℕ
addrmod_imm_rm = src_imm ||| mod_rm ||| dir_reversed ||| op3_none

abbrev pub addrmod_imm_acc : ℕ
addrmod_imm_acc = src_imm ||| dst_acc ||| op3_none

abbrev pub addrmod_imm_reg : ℕ
addrmod_imm_reg = src_imm ||| dst_reg ||| op3_none

abbrev pub addrmod_implied : ℕ
addrmod_implied = src_none ||| dst_none ||| op3_none

abbrev pub addrmod_moffset_acc : ℕ
addrmod_moffset_acc = src_moffset ||| dst_acc ||| op3_none

abbrev pub addrmod_reg : ℕ
addrmod_reg = src_reg ||| dst_none ||| op3_none

abbrev pub addrmod_seg2_reg : ℕ
addrmod_seg2_reg = src_seg2_reg ||| dst_none ||| op3_none

abbrev pub addrmod_seg3_reg : ℕ
addrmod_seg3_reg = src_seg3_reg ||| dst_none ||| op3_none

abbrev pub addrmod_seg3_reg_rm : ℕ
addrmod_seg3_reg_rm = src_seg3_reg ||| mod_rm ||| dir_reversed ||| op3_none

abbrev pub addrmod_rm_seg3_reg : ℕ
addrmod_rm_seg3_reg = dst_seg3_reg ||| mod_rm ||| op3_none

abbrev pub addrmod_reg_rm : ℕ
addrmod_reg_rm = src_reg ||| mod_rm ||| dir_reversed ||| op3_none

abbrev pub addrmod_rel : ℕ
addrmod_rel = src_rel ||| dst_none ||| op3_none

abbrev pub addrmod_rm_reg : ℕ
addrmod_rm_reg = dst_reg ||| mod_rm ||| op3_none

abbrev pub addrmod_rm : ℕ
addrmod_rm = dst_none ||| mod_rm ||| op3_none

abbrev pub addrmod_rm_imm_reg : ℕ
addrmod_rm_imm_reg = dst_reg ||| mod_rm ||| op3_imm

abbrev pub addrmod_rm_imm8_reg : ℕ
addrmod_rm_imm8_reg = dst_reg ||| mod_rm ||| op3_imm8

abbrev pub addrmod_reg_imm8_rm : ℕ
addrmod_reg_imm8_rm = src_reg ||| mod_rm ||| dir_reversed ||| op3_imm8

abbrev pub addrmod_reg_cl_rm : ℕ
addrmod_reg_cl_rm = src_reg ||| mod_rm ||| dir_reversed ||| op3_cl

abbrev pub addrmod_far_ptr : ℕ
addrmod_far_ptr = dst_none ||| src_imm48 ||| op3_none

abbrev pub addrmod_imm8_imm16 : ℕ
addrmod_imm8_imm16 = src_imm8 ||| dst_imm16 ||| op3_none

abbrev pub addrmod_cr_rm : ℕ
addrmod_cr_rm = src_cr_reg ||| mod_rm ||| dir_reversed ||| op3_none

abbrev pub addrmod_dbg_rm : ℕ
addrmod_dbg_rm = src_dbg_reg ||| mod_rm ||| dir_reversed ||| op3_none

abbrev pub addrmod_rm_cr : ℕ
addrmod_rm_cr = dst_cr_reg ||| mod_rm ||| op3_none

abbrev pub addrmod_rm_dbg : ℕ
addrmod_rm_dbg = dst_dbg_reg ||| mod_rm ||| op3_none
