-- ===== src/X86/Tables/Groups.antt =====
-- The extension groups of arch/x86/x86_decode.cpp.
use libcpu.Base.{ℕ, List, [], ◌∷◌, ◌|||◌}
use libcpu.X86.Opcode.{
  opc_adc, opc_add, opc_and, opc_bt, opc_btc, opc_btr, opc_bts, opc_call, opc_cmp, opc_cmpxchg8b,
  opc_dec, opc_div, opc_idiv, opc_imul, opc_inc, opc_invlpg, opc_jmp, opc_lldt, opc_lmsw, opc_ltr,
  opc_mul, opc_neg, opc_not, opc_or, opc_push, opc_rcl, opc_rcr, opc_rol, opc_ror, opc_sar, opc_sbb,
  opc_shl, opc_shr, opc_sldt, opc_smsw, opc_str, opc_sub, opc_test, opc_verr, opc_verw, opc_xor,
}
use libcpu.X86.Flags.{width_byte, width_word}
use libcpu.X86.AddrMod.{addrmod_imm_rm}
use libcpu.X86.Field.{opc_diff_syntax, opc_undefined}

unfoldable pub grp1_decode_table : List ℕ
grp1_decode_table =
    opc_add ∷ opc_or ∷ opc_adc ∷ opc_sbb ∷ opc_and ∷ opc_sub ∷ opc_xor ∷ opc_cmp ∷ []

unfoldable pub grp2_decode_table : List ℕ
grp2_decode_table =
    opc_rol ∷ opc_ror ∷ opc_rcl ∷ opc_rcr ∷ opc_shl ∷ opc_shr ∷ opc_undefined ∷ opc_sar ∷ []

unfoldable pub grp3_decode_table : List ℕ
grp3_decode_table =
    (opc_test ||| addrmod_imm_rm)
    ∷ opc_undefined
    ∷ opc_not
    ∷ opc_neg
    ∷ opc_mul
    ∷ opc_imul
    ∷ opc_div
    ∷ opc_idiv
    ∷ []

unfoldable pub grp4_decode_table : List ℕ
grp4_decode_table =
    opc_inc ∷ opc_dec ∷ opc_undefined ∷ opc_undefined ∷ opc_undefined ∷ opc_undefined
    ∷ opc_undefined ∷ opc_undefined ∷ []

unfoldable pub grp5_decode_table : List ℕ
grp5_decode_table =
    opc_inc
    ∷ opc_dec
    ∷ opc_call
    ∷ (opc_diff_syntax 11)
    ∷ opc_jmp
    ∷ (opc_diff_syntax 12)
    ∷ opc_push
    ∷ opc_undefined
    ∷ []

unfoldable pub grp6_decode_table : List ℕ
grp6_decode_table =
    opc_sldt ∷ opc_str ∷ opc_lldt ∷ opc_ltr ∷ opc_verr ∷ opc_verw ∷ opc_undefined ∷ opc_undefined
    ∷ []

unfoldable pub grp7_decode_table : List ℕ
grp7_decode_table =
    (opc_diff_syntax 13)
    ∷ (opc_diff_syntax 14)
    ∷ (opc_diff_syntax 15)
    ∷ (opc_diff_syntax 16)
    ∷ (opc_smsw ||| width_word)
    ∷ opc_undefined
    ∷ (opc_lmsw ||| width_word)
    ∷ (opc_invlpg ||| width_byte)
    ∷ []

unfoldable pub grp8_decode_table : List ℕ
grp8_decode_table =
    opc_undefined ∷ opc_undefined ∷ opc_undefined ∷ opc_undefined ∷ opc_bt ∷ opc_bts ∷ opc_btr
    ∷ opc_btc ∷ []

unfoldable pub grp9_decode_table : List ℕ
grp9_decode_table =
    opc_undefined ∷ opc_cmpxchg8b ∷ opc_undefined ∷ opc_undefined ∷ opc_undefined ∷ opc_undefined
    ∷ opc_undefined ∷ opc_undefined ∷ []
