-- ===== src/X86/Tag/Laws.antt =====
-- What `arch_x86_tag_instr` stores for an instruction that it can decode.
use libcpu.Base.{
  ℕ, ◌≡◌, ◌≢◌, ◌<◌, ◌≤◌, refl, Bool, true, Option, none, some, [], ◌∷◌, if◌then◌else◌, is_case, has,
  bit_or, arith, if-cases, if-true, if-false, ◌+◌, ◌%◌,
}
use libcpu.Tag.Flags.{
  tag_branch, tag_call, tag_cond_branch, tag_ret, tag_trap, tag_continue, addr_mod,
}
use libcpu.Tag.Cache.{int_to_addr}
use libcpu.Tag.Arch.{Written, IsWritten}
use libcpu.X86.Instr.{X86Instr}
use libcpu.X86.Decode.{
  Decoded, arch_x86_decode_instr, table_entry, diff_syntax_opcode, arch_x86_instr_length,
}
use libcpu.X86.Decode.Opcodes.{tables_pass, decoded-Passes}
use libcpu.X86.Tag.{
  tag_switch, arch_x86_tag_instr, cond_opcodes, branch_opcodes, call_opcodes, branch_pc, call_pc,
  ret_opcodes, trap_opcodes, rel_target,
}

-- The inner switches of a branch and of a call have a case for the opcode byte.
abbrev settled : ℕ → ℕ → Bool
settled opcode byte =
    if is_case opcode cond_opcodes
    then true
    else if is_case opcode branch_opcodes
    then is_case byte (0xe9 ∷ 0xeb ∷ 0xea ∷ 0xff ∷ [])
    else if is_case opcode call_opcodes
    then is_case byte (0x34 ∷ 0x9a ∷ 0xe8 ∷ 0xff ∷ [])
    else true

settled_tables : tables_pass settled ≡ true
unfolding tables_pass table_entry diff_syntax_opcode
settled_tables = refl

branch_pc_set :
    (i : X86Instr) (pc : ℕ)
    → is_case i.opcode_byte (0xe9 ∷ 0xeb ∷ 0xea ∷ 0xff ∷ []) ≡ true
    → branch_pc i pc ≢ none
branch_pc_set i pc h = ground arith

call_pc_set :
    (i : X86Instr) (pc : ℕ)
    → is_case i.opcode_byte (0x34 ∷ 0x9a ∷ 0xe8 ∷ 0xff ∷ []) ≡ true
    → call_pc i pc ≢ none
call_pc_set i pc h = ground arith

abbrev writes : X86Instr → ℕ → ℕ → Option ℕ → Written
writes i pc tag new_pc =
    let len = int_to_addr (arch_x86_instr_length i) in
    record { bytes = len; tag = some tag; new_pc = new_pc; next_pc = some ((pc + len) % addr_mod) }

writes-IsWritten :
    (i : X86Instr) (pc tag : ℕ) (new_pc : Option ℕ)
    → (has tag (bit_or tag_call tag_branch) ≡ true → new_pc ≢ none)
    → IsWritten (writes i pc tag new_pc)
writes-IsWritten i pc tag new_pc h = record { tag_set = cc; next_set = cc; new_set = h }

tag_switch-IsWritten :
    (i : X86Instr) (pc : ℕ) → settled i.opcode i.opcode_byte ≡ true → IsWritten (tag_switch i pc)
unfolding tag_switch
tag_switch-IsWritten i pc h =
    if-cases IsWritten (is_case i.opcode cond_opcodes) _ _
      (λ _. writes-IsWritten i pc tag_cond_branch (some (rel_target i pc)) (λ _. cc))
      (λ cond.
        if-cases IsWritten (is_case i.opcode branch_opcodes) _ _
          (λ branch.
            writes-IsWritten i pc tag_branch (branch_pc i pc)
              (λ _. branch_pc_set i pc (if-true _ _ _ branch (if-false _ _ _ cond h))))
          (λ branch.
            if-cases IsWritten (is_case i.opcode call_opcodes) _ _
              (λ call. writes-IsWritten i pc tag_call (call_pc i pc) (λ _.
                call_pc_set i pc
                  (if-true _ _ _ call (if-false _ _ _ branch (if-false _ _ _ cond h)))))
              (λ call.
                if-cases IsWritten (is_case i.opcode ret_opcodes) _ _
                  (λ _. writes-IsWritten i pc tag_ret none (λ e. cc e))
                  (λ _.
                    if-cases IsWritten (is_case i.opcode trap_opcodes) _ _
                      (λ _. writes-IsWritten i pc tag_trap none (λ e. cc e))
                      (λ _. writes-IsWritten i pc tag_continue none (λ e. cc e))))))

-- For a memory of bytes and either syntax: an instruction that the decoder returns makes
-- `arch_x86_tag_instr` store all that its tag needs. In particular the inner switches on the opcode
-- byte of a branch and of a call never fall through to their default.
pub arch_x86_tag_instr-IsWritten :
    (ram : ℕ → ℕ) (use_intel fuel pc : ℕ) (i : X86Instr)
    → ((a : ℕ) → ram a < 256)
    → use_intel ≤ 1
    → arch_x86_decode_instr ram use_intel fuel pc ≡ Decoded.decoded i
    → (w : Written) × (arch_x86_tag_instr ram use_intel fuel pc ≡ some w) × IsWritten w
unfolding arch_x86_tag_instr
arch_x86_tag_instr-IsWritten ram use_intel fuel pc i bytes syntax e = (
  tag_switch i pc,
  rw (arch_x86_tag_instr, e) refl,
  tag_switch-IsWritten i pc
      (decoded-Passes settled settled_tables ram use_intel bytes syntax fuel pc i e),
)
