-- ===== src/X86/Tables/Syntax.antt =====
-- The opcodes that differ between AT&T and Intel syntax (arch/x86/x86_decode.cpp). The columns are
-- AT&T, AT&T with an operand size prefix, Intel, Intel with the prefix.
use libcpu.Base.{ℕ, List, [], ◌∷◌}
use libcpu.X86.Opcode.{
  opc_bound, opc_call, opc_cbtv, opc_cbw, opc_cdq, opc_cltd, opc_cwd, opc_cwde, opc_cwtd, opc_cwtl,
  opc_jmp, opc_lcall, opc_lgdtd, opc_lgdtl, opc_lgdtw, opc_lidtd, opc_lidtl, opc_lidtw, opc_ljmp,
  opc_lret, opc_movsx, opc_movsxb, opc_movsxw, opc_movzx, opc_movzxb, opc_movzxw, opc_retf,
  opc_sgdtd, opc_sgdtl, opc_sgdtw, opc_sidtd, opc_sidtl, opc_sidtw,
}
use libcpu.X86.Flags.{width_dword, width_qword, width_word}

unfoldable pub diff_syntax_flags_0x62 : List ℕ
diff_syntax_flags_0x62 = width_dword ∷ width_word ∷ width_qword ∷ width_dword ∷ []

unfoldable pub diff_syntax_opcodes : List (List ℕ)
diff_syntax_opcodes =
    (opc_bound ∷ opc_bound ∷ opc_bound ∷ opc_bound ∷ [])
    ∷ (opc_cwtl ∷ opc_cbtv ∷ opc_cwde ∷ opc_cbw ∷ [])
    ∷ (opc_cltd ∷ opc_cwtd ∷ opc_cdq ∷ opc_cwd ∷ [])
    ∷ (opc_lcall ∷ opc_lcall ∷ opc_call ∷ opc_call ∷ [])
    ∷ (opc_lret ∷ opc_lret ∷ opc_retf ∷ opc_retf ∷ [])
    ∷ (opc_lret ∷ opc_lret ∷ opc_retf ∷ opc_retf ∷ [])
    ∷ (opc_ljmp ∷ opc_ljmp ∷ opc_jmp ∷ opc_jmp ∷ [])
    ∷ (opc_movzxb ∷ opc_movzxb ∷ opc_movzx ∷ opc_movzx ∷ [])
    ∷ (opc_movzxw ∷ opc_movzxw ∷ opc_movzx ∷ opc_movzx ∷ [])
    ∷ (opc_movsxb ∷ opc_movsxb ∷ opc_movsx ∷ opc_movsx ∷ [])
    ∷ (opc_movsxw ∷ opc_movsxw ∷ opc_movsx ∷ opc_movsx ∷ [])
    ∷ (opc_lcall ∷ opc_lcall ∷ opc_call ∷ opc_call ∷ [])
    ∷ (opc_ljmp ∷ opc_ljmp ∷ opc_jmp ∷ opc_jmp ∷ [])
    ∷ (opc_sgdtl ∷ opc_sgdtw ∷ opc_sgdtd ∷ opc_sgdtw ∷ [])
    ∷ (opc_sidtl ∷ opc_sidtw ∷ opc_sidtd ∷ opc_sidtw ∷ [])
    ∷ (opc_lgdtl ∷ opc_lgdtw ∷ opc_lgdtd ∷ opc_lgdtw ∷ [])
    ∷ (opc_lidtl ∷ opc_lidtw ∷ opc_lidtd ∷ opc_lidtw ∷ [])
    ∷ []
