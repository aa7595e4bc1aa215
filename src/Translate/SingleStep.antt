-- ===== src/Translate/SingleStep.antt =====
-- `cpu_translate_singlestep` of libcpu/translate_singlestep.cpp: one instruction, after which the
-- function returns. A block that `create_singlestep_return_basicblock` makes is `leaving`.
pub mod Steps
use libcpu.Base.{ℕ, Bool, ◌||◌, ◌==◌, ◌|||◌, Option, none, some, [], ◌++◌, if◌then◌else◌, has}
use libcpu.Tag.Flags.{tag_call, tag_ret, tag_branch, tag_conditional, new_pc_none}
use libcpu.Tag.Arch.{Written, Locals}
use libcpu.Translate.Builder.{Target, Trace, emit_store_pc_return}
use libcpu.Translate.Instr.{translate_instr}
use libcpu.Translate.All.{locals_at}

-- The block of a jump's target.
unfoldable pub singlestep_target : Locals → Target
singlestep_target l =
    if has l.tag tag_ret || (l.new_pc == new_pc_none)
    then Target.ret
    else if has l.tag (tag_call ||| tag_branch)
    then Target.leaving l.new_pc
    else Target.null

unfoldable pub singlestep_next : Locals → Target
singlestep_next l = if has l.tag tag_conditional then Target.leaving l.next_pc else Target.null

-- `store PC & return`, if the instruction is not a branch.
abbrev pub returns_from : Option Target → ℕ → Trace
returns_from none next_pc = []
returns_from (some bb) next_pc = emit_store_pc_return bb next_pc Target.ret

unfoldable pub cpu_translate_singlestep : (ℕ → Written) → Locals → (ℕ → ℕ) → ℕ → Trace
unfolding singlestep_target singlestep_next translate_instr
cpu_translate_singlestep tag_instr indeterminate length pc =
    let l = locals_at tag_instr indeterminate pc in
    let t =
      translate_instr length pc l.tag (singlestep_target l) Target.trap (singlestep_next l)
        (Target.label pc) in
    t.trace ++ returns_from t.cont l.next_pc
