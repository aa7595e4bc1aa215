-- ===== src/X86/Tag.antt =====
-- `arch_x86_tag_instr` (arch/x86/x86_tag.cpp).
pub mod Laws
pub mod Short
use libcpu.Base.{ℕ, ◌+◌, ◌%◌, ◌≡◌, Option, none, some, List, [], ◌∷◌, ◌==◌, if◌then◌else◌, is_case}
use libcpu.Tag.Flags.{
  tag_trap, tag_ret, tag_branch, tag_call, tag_cond_branch, tag_continue, new_pc_none, addr_mod,
}
use libcpu.Tag.Arch.{Written}
use libcpu.Tag.Cache.{int_to_addr}
use libcpu.X86.Opcode.{
  opc_jo, opc_jno, opc_jb, opc_jnb, opc_jz, opc_jne, opc_jbe, opc_ja, opc_js, opc_jns, opc_jpe,
  opc_jpo, opc_jl, opc_jge, opc_jle, opc_jg, opc_loop, opc_loope, opc_loopne, opc_jmp, opc_ljmp,
  opc_call, opc_lcall, opc_sysenter, opc_ret, opc_lret, opc_retf, opc_iret, opc_sysexit, opc_int,
  opc_into, opc_int3, opc_bound,
}
use libcpu.X86.Instr.{X86Instr}
use libcpu.X86.Decode.{Decoded, arch_x86_decode_instr, arch_x86_instr_length}

abbrev pub cond_opcodes : List ℕ
cond_opcodes =
    opc_jo ∷ opc_jno ∷ opc_jb ∷ opc_jnb ∷ opc_jz ∷ opc_jne ∷ opc_jbe ∷ opc_ja ∷ opc_js ∷ opc_jns
    ∷ opc_jpe ∷ opc_jpo ∷ opc_jl ∷ opc_jge ∷ opc_jle ∷ opc_jg ∷ opc_loop ∷ opc_loope ∷ opc_loopne
    ∷ []

abbrev pub branch_opcodes : List ℕ
branch_opcodes = opc_jmp ∷ opc_ljmp ∷ []

abbrev pub call_opcodes : List ℕ
call_opcodes = opc_call ∷ opc_lcall ∷ opc_sysenter ∷ []

abbrev pub ret_opcodes : List ℕ
ret_opcodes = opc_ret ∷ opc_lret ∷ opc_retf ∷ opc_iret ∷ opc_sysexit ∷ []

abbrev pub trap_opcodes : List ℕ
trap_opcodes = opc_int ∷ opc_into ∷ opc_int3 ∷ opc_bound ∷ []

-- `pc + len + instr.rel_data[0]`
abbrev pub rel_target : X86Instr → ℕ → ℕ
rel_target i pc = (pc + int_to_addr (arch_x86_instr_length i) + int_to_addr i.imm_data0) % addr_mod

-- The switch on the opcode byte in the case of a branch.
abbrev pub branch_pc : X86Instr → ℕ → Option ℕ
branch_pc i pc =
    if is_case i.opcode_byte (0xe9 ∷ 0xeb ∷ [])
    then some (rel_target i pc)
    else if is_case i.opcode_byte (0xea ∷ 0xff ∷ [])
    then some new_pc_none
    else none

-- The switch on the opcode byte in the case of a call.
abbrev pub call_pc : X86Instr → ℕ → Option ℕ
call_pc i pc =
    if is_case i.opcode_byte (0x34 ∷ 0x9a ∷ [])
    then some new_pc_none
    else if i.opcode_byte == 0xe8
    then some (rel_target i pc)
    else if i.opcode_byte == 0xff
    then some new_pc_none
    else none

unfoldable pub tag_switch : X86Instr → ℕ → Written
tag_switch i pc =
    let len = int_to_addr (arch_x86_instr_length i) in
    let written : ℕ → Option ℕ → Written = λ tag new_pc. record {
      bytes = len;
      tag = some tag;
      new_pc = new_pc;
      next_pc = some ((pc + len) % addr_mod);
    } in
    if is_case i.opcode cond_opcodes
    then written tag_cond_branch (some (rel_target i pc))
    else if is_case i.opcode branch_opcodes
    then written tag_branch (branch_pc i pc)
    else if is_case i.opcode call_opcodes
    then written tag_call (call_pc i pc)
    else if is_case i.opcode ret_opcodes
    then written tag_ret none
    else if is_case i.opcode trap_opcodes
    then written tag_trap none
    else written tag_continue none

-- `return -1`, which stores nothing.
abbrev pub undecoded : Written
undecoded = record { bytes = new_pc_none; tag = none; new_pc = none; next_pc = none }

-- `none` is a search that ran out of fuel.
unfoldable pub arch_x86_tag_instr : (ℕ → ℕ) → ℕ → ℕ → ℕ → Option Written
unfolding arch_x86_decode_instr tag_switch
arch_x86_tag_instr ram use_intel fuel pc = elim (arch_x86_decode_instr ram use_intel fuel pc) [
  | Decoded.illegal ↦ some undecoded
  | Decoded.out_of_fuel ↦ none
  | Decoded.decoded i ↦ some (tag_switch i pc)
]
