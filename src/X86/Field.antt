-- ===== src/X86/Field.antt =====
-- The fields of a decode table's entry: the macros at the head of arch/x86/x86_decode.cpp. A field
-- is a shift and a size.
use libcpu.Base.{ℕ, ◌+◌, ◌-◌, ◌^◌, ◌|||◌, ◌&&&◌, ◌<<<◌, ◌>>>◌}
use libcpu.X86.Flags.{width_byte, width_dword}
use libcpu.X86.AddrMod.{addrmod_rel, addrmod_rm_reg, addrmod_rm}
use libcpu.X86.Opcode.{opc_illegal}

pub record Field : Type 0 where
  pub shift : ℕ
  pub size : ℕ

abbrev pub get_mask : Field → ℕ
get_mask f = 2 ^ f.size - 1

abbrev pub get_field : ℕ → Field → ℕ
get_field v f = v >>> f.shift &&& get_mask f

abbrev pub set_field : Field → ℕ → ℕ
set_field f value = value <<< f.shift

abbrev pub x86_opcode : Field
x86_opcode = record { shift = 0; size = 8 }

abbrev pub x86_decode_class : Field
x86_decode_class = record { shift = 61; size = 2 }

abbrev pub x86_prefix_index : Field
x86_prefix_index = record { shift = 58; size = 3 }

abbrev pub x86_prefix_value : Field
x86_prefix_value = record { shift = 55; size = 3 }

abbrev pub x86_decode_group : Field
x86_decode_group = record { shift = 57; size = 4 }

abbrev pub x86_diff_syntax : Field
x86_diff_syntax = record { shift = 56; size = 5 }

abbrev pub decode_class_invalid : ℕ
decode_class_invalid = 0

abbrev pub decode_class_prefix : ℕ
decode_class_prefix = 1

abbrev pub decode_class_group : ℕ
decode_class_group = 2

abbrev pub decode_class_diff_syntax : ℕ
decode_class_diff_syntax = 3

abbrev pub seg_override : ℕ
seg_override = 0

abbrev pub rep_override : ℕ
rep_override = 1

abbrev pub lock_prefix : ℕ
lock_prefix = 2

abbrev pub address_size_override : ℕ
address_size_override = 3

abbrev pub operand_size_override : ℕ
operand_size_override = 4

abbrev pub is_two_byte_instr : ℕ
is_two_byte_instr = 5

abbrev pub es_override : ℕ
es_override = 1

abbrev pub cs_override : ℕ
cs_override = 2

abbrev pub ss_override : ℕ
ss_override = 3

abbrev pub ds_override : ℕ
ds_override = 4

abbrev pub fs_override : ℕ
fs_override = 5

abbrev pub gs_override : ℕ
gs_override = 6

abbrev pub repnz_prefix : ℕ
repnz_prefix = 1

abbrev pub repz_prefix : ℕ
repz_prefix = 2

abbrev pub opc_undefined : ℕ
opc_undefined = set_field x86_decode_class decode_class_invalid ||| opc_illegal

abbrev pub opc_prefix : ℕ → ℕ → ℕ
opc_prefix index value =
    set_field x86_decode_class decode_class_prefix
    ||| set_field x86_prefix_index index
    ||| set_field x86_prefix_value value

abbrev pub opc_group : ℕ → ℕ
opc_group group =
    set_field x86_decode_class decode_class_group ||| set_field x86_decode_group (group + 1)

abbrev pub opc_diff_syntax : ℕ → ℕ
opc_diff_syntax index =
    set_field x86_decode_class decode_class_diff_syntax ||| set_field x86_diff_syntax index

abbrev pub jb : ℕ
jb = addrmod_rel ||| width_byte

abbrev pub jv : ℕ
jv = addrmod_rel ||| width_dword

abbrev pub cv : ℕ
cv = addrmod_rm_reg ||| width_dword

abbrev pub sb : ℕ
sb = addrmod_rm ||| width_byte
