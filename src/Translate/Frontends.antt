-- ===== src/Translate/Frontends.antt =====
-- The tags of the 6502 and the x86 frontends (arch/6502/6502_tag.cpp, arch/x86/x86_tag.cpp), as the
-- translator needs them.
use libcpu.Base.{ℕ, ◌≡◌, false, has, ◌+◌, ◌^◌, ◌<◌, ◌≤◌, refl, arith, is_case, if-cases}
use libcpu.Tag.Flags.{
  tag_delay_slot, tag_continue, tag_call, tag_branch, tag_ret, tag_trap, tag_cond_branch,
}
use libcpu.Tag.Store.{Cpu, is_inside_code_area}
use libcpu.Tag.Arch.{tag_of}
use libcpu.M6502.Isa.{Instr, get_instr}
use libcpu.M6502.Tag.{tag_instr, tag_switch}
use libcpu.M6502.Tag.Laws.{tag_instr_lem}
use libcpu.X86.Instr.{X86Instr}
use libcpu.X86.Tag.{cond_opcodes, branch_opcodes, call_opcodes, ret_opcodes, trap_opcodes}
use libcpu.X86.Tag
use libcpu.Translate.Guest.{IsKind}
use libcpu.Translate.Tagged.{IsForward}

pub tag_continue-IsKind : IsKind tag_continue
tag_continue-IsKind = record { exclusive = λ e. refl; slot_jumps = λ e. cc e }

pub tag_call-IsKind : IsKind tag_call
tag_call-IsKind = record { exclusive = λ e. refl; slot_jumps = λ e. cc e }

pub tag_ret-IsKind : IsKind tag_ret
tag_ret-IsKind = record { exclusive = λ e. refl; slot_jumps = λ e. cc e }

pub tag_branch-IsKind : IsKind tag_branch
tag_branch-IsKind = record { exclusive = λ e. refl; slot_jumps = λ e. cc e }

pub tag_trap-IsKind : IsKind tag_trap
tag_trap-IsKind = record { exclusive = λ e. refl; slot_jumps = λ e. cc e }

pub tag_cond_branch-IsKind : IsKind tag_cond_branch
tag_cond_branch-IsKind = record { exclusive = λ e. refl; slot_jumps = λ e. cc e }

-- An instruction without a delay slot.
abbrev pub NoSlot : ℕ → Type 0
NoSlot tag = has tag tag_delay_slot ≡ false

tag_switch-NoSlot : (i : Instr) → NoSlot (tag_switch i)
unfolding tag_switch
tag_switch-NoSlot Instr.brk = refl
tag_switch-NoSlot Instr.rts = refl
tag_switch-NoSlot Instr.jmp = refl
tag_switch-NoSlot Instr.jsr = refl
tag_switch-NoSlot Instr.bcc = refl
tag_switch-NoSlot Instr.bcs = refl
tag_switch-NoSlot Instr.beq = refl
tag_switch-NoSlot Instr.bmi = refl
tag_switch-NoSlot Instr.bne = refl
tag_switch-NoSlot Instr.bpl = refl
tag_switch-NoSlot Instr.bvc = refl
tag_switch-NoSlot Instr.bvs = refl
tag_switch-NoSlot _ = refl

tag_switch-IsKind : (i : Instr) → IsKind (tag_switch i)
unfolding tag_switch
tag_switch-IsKind Instr.brk = tag_trap-IsKind
tag_switch-IsKind Instr.rts = tag_ret-IsKind
tag_switch-IsKind Instr.jmp = tag_branch-IsKind
tag_switch-IsKind Instr.jsr = tag_call-IsKind
tag_switch-IsKind Instr.bcc = tag_cond_branch-IsKind
tag_switch-IsKind Instr.bcs = tag_cond_branch-IsKind
tag_switch-IsKind Instr.beq = tag_cond_branch-IsKind
tag_switch-IsKind Instr.bmi = tag_cond_branch-IsKind
tag_switch-IsKind Instr.bne = tag_cond_branch-IsKind
tag_switch-IsKind Instr.bpl = tag_cond_branch-IsKind
tag_switch-IsKind Instr.bvc = tag_cond_branch-IsKind
tag_switch-IsKind Instr.bvs = tag_cond_branch-IsKind
tag_switch-IsKind _ = tag_continue-IsKind

tag_instr-IsKind : (ram : ℕ → ℕ) (pc : ℕ) → IsKind (tag_of (tag_instr ram pc))
unfolding tag_instr
tag_instr-IsKind ram pc = tag_switch-IsKind (get_instr (ram pc))

tag_instr-NoSlot : (ram : ℕ → ℕ) (pc : ℕ) → NoSlot (tag_of (tag_instr ram pc))
unfolding tag_instr
tag_instr-NoSlot ram pc = tag_switch-NoSlot (get_instr (ram pc))

-- For memory that holds bytes and a code area that ends 3 bytes below 2^64 or earlier, the 6502
-- frontend's tags fit together, without delay slots, and its instructions lead to higher addresses.
pub tag_instr-IsForward :
    (cpu : Cpu) (ram : ℕ → ℕ)
    → ((a : ℕ) → ram a < 256)
    → cpu.code_end + 3 ≤ 2 ^ 64
    → IsForward cpu (tag_instr ram) × ((pc : ℕ) → NoSlot (tag_of (tag_instr ram pc)))
unfolding is_inside_code_area
tag_instr-IsForward cpu ram bytes room = (
  record {
    kind = tag_instr-IsKind ram;
    forward =
        λ pc inside. let (a, b, c, d, e) = tag_instr_lem ram pc bytes in ground (arith, a, b, c);
  },
  tag_instr-NoSlot ram,
)

-- The tag that the x86 frontend stores for a decoded instruction: it goes on exactly if it does not
-- jump or trap, and it has no delay slot.
pub x86_tag_switch-IsKind :
    (i : X86Instr) (pc : ℕ)
    → IsKind (tag_of (libcpu.X86.Tag.tag_switch i pc))
      × NoSlot (tag_of (libcpu.X86.Tag.tag_switch i pc))
unfolding libcpu.X86.Tag.tag_switch
x86_tag_switch-IsKind i pc =
    if-cases (λ w. IsKind (tag_of w) × NoSlot (tag_of w)) (is_case i.opcode cond_opcodes) _ _
      (λ _. (tag_cond_branch-IsKind, refl))
      (λ _.
        if-cases (λ w. IsKind (tag_of w) × NoSlot (tag_of w)) (is_case i.opcode branch_opcodes) _ _
          (λ _. (tag_branch-IsKind, refl))
          (λ _.
            if-cases (λ w. IsKind (tag_of w) × NoSlot (tag_of w)) (is_case i.opcode call_opcodes) _
              _ (λ _. (tag_call-IsKind, refl))
              (λ _.
                if-cases (λ w. IsKind (tag_of w) × NoSlot (tag_of w)) (is_case i.opcode ret_opcodes)
                  _ _ (λ _. (tag_ret-IsKind, refl))
                  (λ _.
                    if-cases (λ w. IsKind (tag_of w) × NoSlot (tag_of w))
                      (is_case i.opcode trap_opcodes) _ _ (λ _. (tag_trap-IsKind, refl))
                      (λ _. (tag_continue-IsKind, refl))))))
