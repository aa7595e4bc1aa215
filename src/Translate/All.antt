-- ===== src/Translate/All.antt =====
-- `cpu_translate_all` of libcpu/translate_all.cpp. `fuel` bounds the rounds of the loop that fills a
-- block; more than the size of the code area is enough.
use mathlib.Core.Option
use libcpu.Base.{
  ℕ, zero, suc, ◌-◌, Bool, true, false, not, ◌&&◌, ◌==◌, Option, none, some, List, [], ◌∷◌, ◌++◌,
  if◌then◌else◌, has, ◌|||◌,
}
use libcpu.Tag.Flags.{tag_call, tag_ret, tag_branch, tag_conditional, tag_translated, new_pc_none}
use libcpu.Tag.Store.{Cpu, Tagging, get_tag, or_tag, is_code, is_start_of_basicblock}
use libcpu.Tag.Arch.{Written, Locals, store}
use libcpu.Translate.Builder.{Target, Call, Trace, emit, lookup_basicblock}
use libcpu.Translate.Instr.{translate_instr}

-- The pointers `bb_target` and `bb_next` of the loop.
pub record Pointers : Type 0 where
  pub bb_target : Target
  pub bb_next : Target

pub record Block : Type 0 where
  pub start : ℕ
  pub trace : Trace

abbrev pub null_pointers : Pointers
null_pointers = record { bb_target = Target.null; bb_next = Target.null }

-- A translated function: its blocks, each also a case of the switch in the dispatch block, whose
-- default is `bb_ret`; and the tags.
pub record Translation : Type 0 where
  pub blocks : List Block
  pub tags : Tagging

abbrev pub add_block : ℕ → Option Trace → Option Translation → Option Translation
add_block pc (some trace) (some f) =
    some (record f { blocks = record { start = pc; trace = trace } ∷ f.blocks })
add_block pc _ _ = none

-- What `tag_instr` leaves in the variables of the loop; `indeterminate` is what they held before.
abbrev pub locals_at : (ℕ → Written) → Locals → ℕ → Locals
locals_at tag_instr indeterminate pc = store (tag_instr pc) indeterminate

module _ (cpu : Cpu) (tag_instr : ℕ → Written) (indeterminate : Locals) (length : ℕ → ℕ) where
  -- The addresses from `pc` on, `n` of them, that get a label.
  unfoldable pub find_labels : Tagging → ℕ → ℕ → List ℕ
  find_labels s zero pc = []
  find_labels s (suc n) pc =
      let rest = find_labels s n (suc pc) in
      if is_start_of_basicblock cpu s pc && not (has (get_tag cpu s pc) tag_translated)
      then pc ∷ rest
      else rest

  module _ (labels : List ℕ) (s : Tagging) where
    -- The targets of the instruction, where its tag sets them.
    unfoldable pub set_target : ℕ → Target → Target
    set_target pc old =
        let tag = get_tag cpu s pc in
        let after_ret = if has tag tag_ret then Target.dispatch else old in
        if has tag (tag_call ||| tag_branch)
        then if (locals_at tag_instr indeterminate pc).new_pc == new_pc_none
          then Target.dispatch
          else lookup_basicblock labels (locals_at tag_instr indeterminate pc).new_pc
        else after_ret

    unfoldable pub set_next : ℕ → Target → Target
    set_next pc old =
        if has (get_tag cpu s pc) tag_conditional
        then lookup_basicblock labels (locals_at tag_instr indeterminate pc).next_pc
        else old

    -- The link with the next block, if the last instruction leaves one open.
    unfoldable pub link : Option Target → ℕ → Trace
    link none pc = []
    link (some bb) pc = emit bb (Call.branch (lookup_basicblock labels pc)) ∷ []

    -- The test of the loop.
    unfoldable pub goes_on : Option Target → ℕ → Bool
    goes_on none pc = false
    goes_on (some bb) pc = not (is_start_of_basicblock cpu s pc) && is_code cpu s pc

    -- The loop that fills `cur_bb`; `none` is a loop that ran out of fuel.
    unfoldable pub fill : ℕ → ℕ → Pointers → Target → Option Trace
    unfolding set_target set_next link goes_on translate_instr
    fill zero pc p cur_bb = none
    fill (suc fuel) pc p cur_bb =
        let bb_target = set_target pc p.bb_target in
        let bb_next = set_next pc p.bb_next in
        let t = translate_instr length pc (get_tag cpu s pc) bb_target Target.trap bb_next cur_bb in
        let next = (locals_at tag_instr indeterminate pc).next_pc in
        elim (goes_on t.cont next) [
          | true ↦
              let p' : Pointers = record { bb_target = bb_target; bb_next = bb_next } in
              Option.map (λ rest. t.trace ++ rest) (fill fuel next p' cur_bb)
          | false ↦ some (t.trace ++ link t.cont next)
        ]

    unfoldable pub fill_block : ℕ → ℕ → Option Trace
    unfolding fill
    fill_block fuel pc = fill fuel pc null_pointers (Target.label pc)

  -- The loop over the basic blocks: `labels` are all of them, the list those still to do.
  unfoldable pub fill_blocks : ℕ → List ℕ → List ℕ → Tagging → Option Translation
  unfolding fill_block
  fill_blocks fuel labels [] s = some (record { blocks = []; tags = s })
  fill_blocks fuel labels (pc ∷ pcs) s =
      let s' = or_tag cpu s pc tag_translated in
      add_block pc (fill_block labels s' fuel pc) (fill_blocks fuel labels pcs s')

  unfoldable pub cpu_translate_all : ℕ → Tagging → Option Translation
  unfolding find_labels fill_blocks
  cpu_translate_all fuel s =
      let labels = find_labels s (cpu.code_end - cpu.code_start) cpu.code_start in
      fill_blocks fuel labels labels s
