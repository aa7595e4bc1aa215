-- ===== src/X86/Flags.antt =====
-- `x86_instr_flags` of arch/x86/x86_decode.h.
use libcpu.Base.{ℕ, ◌^◌, ◌|||◌}

abbrev pub mod_rm : ℕ
mod_rm = 2 ^ 8

abbrev pub sib : ℕ
sib = 2 ^ 9

abbrev pub dir_reversed : ℕ
dir_reversed = 2 ^ 10

abbrev pub width_byte : ℕ
width_byte = 2 ^ 11

abbrev pub width_word : ℕ
width_word = 2 ^ 12

abbrev pub width_dword : ℕ
width_dword = 2 ^ 13

abbrev pub width_qword : ℕ
width_qword = 2 ^ 14

abbrev pub width_mask : ℕ
width_mask = width_byte ||| width_word ||| width_dword

abbrev pub src_none : ℕ
src_none = 2 ^ 15

abbrev pub src_imm : ℕ
src_imm = 2 ^ 16

abbrev pub src_imm8 : ℕ
src_imm8 = 2 ^ 17

abbrev pub src_imm48 : ℕ
src_imm48 = 2 ^ 18

abbrev pub src_imm_mask : ℕ
src_imm_mask = src_imm ||| src_imm8 ||| src_imm48

abbrev pub src_rel : ℕ
src_rel = 2 ^ 19

abbrev pub src_reg : ℕ
src_reg = 2 ^ 20

abbrev pub src_seg2_reg : ℕ
src_seg2_reg = 2 ^ 21

abbrev pub src_seg3_reg : ℕ
src_seg3_reg = 2 ^ 22

abbrev pub src_acc : ℕ
src_acc = 2 ^ 23

abbrev pub src_mem : ℕ
src_mem = 2 ^ 24

abbrev pub src_moffset : ℕ
src_moffset = 2 ^ 25

abbrev pub src_mem_disp_byte : ℕ
src_mem_disp_byte = 2 ^ 26

abbrev pub src_mem_disp_word : ℕ
src_mem_disp_word = 2 ^ 27

abbrev pub src_mem_disp_dword : ℕ
src_mem_disp_dword = 2 ^ 28

abbrev pub src_mem_disp_mask : ℕ
src_mem_disp_mask = src_mem_disp_byte ||| src_mem_disp_word ||| src_mem_disp_dword

abbrev pub src_cr_reg : ℕ
src_cr_reg = 2 ^ 29

abbrev pub src_dbg_reg : ℕ
src_dbg_reg = 2 ^ 30

abbrev pub src_mask : ℕ
src_mask =
    src_none ||| src_imm_mask ||| src_rel ||| src_reg ||| src_seg2_reg ||| src_seg3_reg ||| src_acc
    ||| src_mem ||| src_moffset ||| src_mem_disp_mask ||| src_cr_reg ||| src_dbg_reg

abbrev pub dst_none : ℕ
dst_none = 2 ^ 31

abbrev pub dst_imm16 : ℕ
dst_imm16 = 2 ^ 32

abbrev pub dst_reg : ℕ
dst_reg = 2 ^ 33

abbrev pub dst_acc : ℕ
dst_acc = 2 ^ 34

abbrev pub dst_mem : ℕ
dst_mem = 2 ^ 35

abbrev pub dst_moffset : ℕ
dst_moffset = 2 ^ 36

abbrev pub dst_mem_disp_byte : ℕ
dst_mem_disp_byte = 2 ^ 37

abbrev pub dst_mem_disp_word : ℕ
dst_mem_disp_word = 2 ^ 38

abbrev pub dst_mem_disp_dword : ℕ
dst_mem_disp_dword = 2 ^ 39

abbrev pub dst_mem_disp_mask : ℕ
dst_mem_disp_mask = dst_mem_disp_byte ||| dst_mem_disp_word ||| dst_mem_disp_dword

abbrev pub dst_seg3_reg : ℕ
dst_seg3_reg = 2 ^ 40

abbrev pub dst_cr_reg : ℕ
dst_cr_reg = 2 ^ 41

abbrev pub dst_dbg_reg : ℕ
dst_dbg_reg = 2 ^ 42

abbrev pub dst_mask : ℕ
dst_mask =
    dst_none ||| dst_imm16 ||| dst_reg ||| dst_acc ||| dst_mem ||| dst_moffset ||| dst_mem_disp_mask
    ||| dst_seg3_reg ||| dst_cr_reg ||| dst_dbg_reg

abbrev pub op3_none : ℕ
op3_none = 2 ^ 43

abbrev pub op3_imm : ℕ
op3_imm = 2 ^ 44

abbrev pub op3_imm8 : ℕ
op3_imm8 = 2 ^ 45

abbrev pub op3_cl : ℕ
op3_cl = 2 ^ 46

abbrev pub op3_imm_mask : ℕ
op3_imm_mask = op3_imm ||| op3_imm8

abbrev pub op3_mask : ℕ
op3_mask = op3_none ||| op3_imm_mask ||| op3_cl

abbrev pub mem_disp_mask : ℕ
mem_disp_mask = src_mem_disp_mask ||| dst_mem_disp_mask

abbrev pub moffset_mask : ℕ
moffset_mask = src_moffset ||| dst_moffset

abbrev pub imm_mask : ℕ
imm_mask = src_imm_mask ||| op3_imm_mask

abbrev pub rel_mask : ℕ
rel_mask = src_rel

abbrev pub addrmod_mask : ℕ
addrmod_mask = mod_rm ||| dir_reversed ||| src_mask ||| dst_mask ||| op3_mask
