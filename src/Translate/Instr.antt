-- ===== src/Translate/Instr.antt =====
-- `translate_instr` of libcpu/translate.cpp.
use libcpu.Base.{ℕ, ◌+◌, ◌%◌, [], ◌∷◌, ◌++◌, Bool, if◌then◌else◌, has, ◌|||◌, Option, none, some}
use libcpu.Tag.Flags.{
  tag_continue, tag_call, tag_ret, tag_branch, tag_trap, tag_conditional, tag_delay_slot, addr_mod,
}
use libcpu.Translate.Builder.{Target, Call, Trace, emit}

-- The calls that it makes, and the block where execution continues, if it does.
pub record Translated : Type 0 where
  pub trace : Trace
  pub cont : Option Target

abbrev pub jumps : ℕ → Bool
jumps tag = has tag (tag_branch ||| tag_call ||| tag_ret)

-- The address of the instruction in the delay slot. `length` is what the frontend's
-- `translate_instr` returns.
abbrev pub delay_pc : (ℕ → ℕ) → ℕ → ℕ
delay_pc length pc = (pc + length pc) % addr_mod

module _ (length : ℕ → ℕ) (pc tag : ℕ) (bb_target bb_trap bb_next cur_bb : Target) where
  -- The special case: a delay slot.
  unfoldable pub delayed : Trace
  delayed =
      if has tag tag_conditional
      then emit cur_bb (Call.cond_branch pc (Target.cond pc) (Target.delay pc))
        ∷ emit (Target.cond pc) (Call.instr pc)
        ∷ emit (Target.cond pc) (Call.instr (delay_pc length pc))
        ∷ emit (Target.cond pc) (Call.branch bb_target)
        ∷ emit (Target.delay pc) (Call.instr (delay_pc length pc))
        ∷ emit (Target.delay pc) (Call.branch bb_next)
        ∷ []
      else emit cur_bb (Call.instr pc)
        ∷ emit cur_bb (Call.instr (delay_pc length pc))
        ∷ emit cur_bb (Call.branch bb_target)
        ∷ []

  -- The terminator of a block that the instruction ends.
  unfoldable pub ending : Target → Trace
  ending bb =
      if jumps tag
      then emit bb (Call.branch bb_target) ∷ []
      else if has tag tag_trap
      then emit bb (Call.branch bb_trap) ∷ []
      else []

  unfoldable pub plain : Translated
  unfolding ending
  plain =
      let bb = if has tag tag_conditional then Target.cond pc else cur_bb in
      let test =
        if has tag tag_conditional
        then emit cur_bb (Call.cond_branch pc (Target.cond pc) bb_next) ∷ []
        else [] in
      record {
        trace = test ++ (emit bb (Call.instr pc) ∷ ending bb);
        cont = if has tag tag_continue then some bb else none;
      }

  unfoldable pub translate_instr : Translated
  unfolding delayed plain
  translate_instr =
      if has tag tag_delay_slot then record { trace = delayed; cont = none } else plain
