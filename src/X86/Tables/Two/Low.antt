-- ===== src/X86/Tables/Two/Low.antt =====
-- Entries 0 to 127 of `decode_table_two` (arch/x86/x86_decode.cpp).
use libcpu.Base.{ℕ, List, [], ◌∷◌, ◌|||◌}
use libcpu.X86.Opcode.{
  opc_clts, opc_cmova, opc_cmovb, opc_cmovbe, opc_cmovg, opc_cmovge, opc_cmovl, opc_cmovle,
  opc_cmovnb, opc_cmovne, opc_cmovno, opc_cmovns, opc_cmovo, opc_cmovpe, opc_cmovpo, opc_cmovs,
  opc_cmovz, opc_invd, opc_lar, opc_lsl, opc_mov, opc_rdmsr, opc_rdpmc, opc_rdtsc, opc_sysenter,
  opc_sysexit, opc_ud2, opc_wbinvd, opc_wrmsr,
}
use libcpu.X86.Flags.{width_dword, width_word}
use libcpu.X86.AddrMod.{
  addrmod_cr_rm, addrmod_dbg_rm, addrmod_implied, addrmod_rm, addrmod_rm_cr, addrmod_rm_dbg,
  addrmod_rm_reg,
}
use libcpu.X86.Field.{cv, opc_group, opc_undefined}

unfoldable pub decode_table_two_low : List ℕ
decode_table_two_low =
    (opc_group 6 ||| addrmod_rm ||| width_word)
    ∷ (opc_group 7 ||| addrmod_rm ||| width_dword)
    ∷ (opc_lar ||| addrmod_rm_reg ||| width_dword)
    ∷ (opc_lsl ||| addrmod_rm_reg ||| width_dword)
    ∷ opc_undefined
    ∷ opc_undefined
    ∷ (opc_clts ||| addrmod_implied)
    ∷ opc_undefined
    ∷ (opc_invd ||| addrmod_implied)
    ∷ (opc_wbinvd ||| addrmod_implied)
    ∷ opc_undefined
    ∷ (opc_ud2 ||| addrmod_implied)
    ∷ opc_undefined
    ∷ opc_undefined
    ∷ opc_undefined
    ∷ opc_undefined
    ∷ opc_undefined
    ∷ opc_undefined
    ∷ opc_undefined
    ∷ opc_undefined
    ∷ opc_undefined
    ∷ opc_undefined
    ∷ opc_undefined
    ∷ opc_undefined
    ∷ opc_undefined
    ∷ opc_undefined
    ∷ opc_undefined
    ∷ opc_undefined
    ∷ opc_undefined
    ∷ opc_undefined
    ∷ opc_undefined
    ∷ opc_undefined
    ∷ (opc_mov ||| addrmod_cr_rm ||| width_dword)
    ∷ (opc_mov ||| addrmod_dbg_rm ||| width_dword)
    ∷ (opc_mov ||| addrmod_rm_cr ||| width_dword)
    ∷ (opc_mov ||| addrmod_rm_dbg ||| width_dword)
    ∷ opc_undefined
    ∷ opc_undefined
    ∷ opc_undefined
    ∷ opc_undefined
    ∷ opc_undefined
    ∷ opc_undefined
    ∷ opc_undefined
    ∷ opc_undefined
    ∷ opc_undefined
    ∷ opc_undefined
    ∷ opc_undefined
    ∷ opc_undefined
    ∷ (opc_wrmsr ||| addrmod_implied)
    ∷ (opc_rdtsc ||| addrmod_implied)
    ∷ (opc_rdmsr ||| addrmod_implied)
    ∷ (opc_rdpmc ||| addrmod_implied)
    ∷ (opc_sysenter ||| addrmod_implied)
    ∷ (opc_sysexit ||| addrmod_implied)
    ∷ opc_undefined
    ∷ opc_undefined
    ∷ opc_undefined
    ∷ opc_undefined
    ∷ opc_undefined
    ∷ opc_undefined
    ∷ opc_undefined
    ∷ opc_undefined
    ∷ opc_undefined
    ∷ opc_undefined
    ∷ (opc_cmovo ||| cv)
    ∷ (opc_cmovno ||| cv)
    ∷ (opc_cmovb ||| cv)
    ∷ (opc_cmovnb ||| cv)
    ∷ (opc_cmovz ||| cv)
    ∷ (opc_cmovne ||| cv)
    ∷ (opc_cmovbe ||| cv)
    ∷ (opc_cmova ||| cv)
    ∷ (opc_cmovs ||| cv)
    ∷ (opc_cmovns ||| cv)
    ∷ (opc_cmovpe ||| cv)
    ∷ (opc_cmovpo ||| cv)
    ∷ (opc_cmovl ||| cv)
    ∷ (opc_cmovge ||| cv)
    ∷ (opc_cmovle ||| cv)
    ∷ (opc_cmovg ||| cv)
    ∷ opc_undefined
    ∷ opc_undefined
    ∷ opc_undefined
    ∷ opc_undefined
    ∷ opc_undefined
    ∷ opc_undefined
    ∷ opc_undefined
    ∷ opc_undefined
    ∷ opc_undefined
    ∷ opc_undefined
    ∷ opc_undefined
    ∷ opc_undefined
    ∷ opc_undefined
    ∷ opc_undefined
    ∷ opc_undefined
    ∷ opc_undefined
    ∷ opc_undefined
    ∷ opc_undefined
    ∷ opc_undefined
    ∷ opc_undefined
    ∷ opc_undefined
    ∷ opc_undefined
    ∷ opc_undefined
    ∷ opc_undefined
    ∷ opc_undefined
    ∷ opc_undefined
    ∷ opc_undefined
    ∷ opc_undefined
    ∷ opc_undefined
    ∷ opc_undefined
    ∷ opc_undefined
    ∷ opc_undefined
    ∷ opc_undefined
    ∷ opc_undefined
    ∷ opc_undefined
    ∷ opc_undefined
    ∷ opc_undefined
    ∷ opc_undefined
    ∷ opc_undefined
    ∷ opc_undefined
    ∷ opc_undefined
    ∷ opc_undefined
    ∷ opc_undefined
    ∷ opc_undefined
    ∷ opc_undefined
    ∷ opc_undefined
    ∷ opc_undefined
    ∷ opc_undefined
    ∷ []
