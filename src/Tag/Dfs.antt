-- ===== src/Tag/Dfs.antt =====
-- `tag_recursive` of libcpu/tag.cpp: the depth-first search that marks the reachable code.
-- The loop and the recursion share one fuel. A call at `LIMIT_TAGGING_DFS` returns at once under
-- `CPU_CODEGEN_TAG_LIMIT`.
pub mod Phases
pub mod Search
pub mod Follow
pub mod Total
use libcpu.Base.{
  ℕ, zero, suc, ◌+◌, ◌%◌, Bool, true, false, not, ◌&&◌, ◌==◌, if◌then◌else◌, has, bit_or,
}
use libcpu.Tag.Flags.{
  tag_call, tag_ret, tag_branch, tag_trap, tag_conditional, tag_code, tag_branch_target,
  tag_subroutine, tag_after_call, tag_after_cond, tag_after_trap, addr_mod, codegen_tag_limit,
  hint_trap_returns, hint_trap_returns_twice, limit_tagging_dfs,
}
use libcpu.Tag.Store.{Cpu, Tagging, is_inside_code_area, or_tag, is_code}
use libcpu.Tag.Arch.{Written, Locals, store}

-- `exited` is a call of `exit`.
pub data Outcome : Type 0 where
  done : Tagging → Outcome
  exited out_of_fuel : Outcome

infixl 5 ◌>>=◌
abbrev pub ◌>>=◌ : Outcome → (Tagging → Outcome) → Outcome
done s >>= f = f s
exited >>= f = exited
out_of_fuel >>= f = out_of_fuel

-- `or_tag(cpu, pc, tag | TAG_CODE)`, and the tag of the instruction after a conditional one.
pub mark : Cpu → Locals → ℕ → Tagging → Tagging
mark cpu l pc s =
    let s' = or_tag cpu s pc (bit_or l.tag tag_code) in
    if has l.tag tag_conditional then or_tag cpu s' l.next_pc tag_after_cond else s'

-- A trap that does not return ends the search.
pub trap_ends : Cpu → ℕ → Bool
trap_ends cpu tag =
    has tag tag_trap && not (has cpu.flags_hint (bit_or hint_trap_returns hint_trap_returns_twice))

-- An unconditional branch and a return leave the loop.
pub ends : ℕ → Bool
ends tag = if has tag tag_branch && not (has tag tag_conditional) then true else has tag tag_ret

-- The instruction after the next one.
pub next_pc2 : (ℕ → Written) → Locals → ℕ
next_pc2 tag_instr l = (l.next_pc + (tag_instr l.next_pc).bytes) % addr_mod

-- The parts of the loop's body. `call` is the recursive call, at the next level.
module _ (cpu : Cpu) (tag_instr : ℕ → Written) (call : ℕ → Tagging → Outcome) (l : Locals) where
  pub after_trap : Tagging → Outcome
  after_trap s =
      if has l.tag tag_trap
      then (let s' = or_tag cpu s l.next_pc tag_after_trap in
          if has cpu.flags_hint hint_trap_returns_twice
          then call (next_pc2 tag_instr l) (or_tag cpu s' (next_pc2 tag_instr l) tag_after_trap)
          else done s')
      else done s

  pub after_call : Tagging → Outcome
  after_call s =
      if has l.tag tag_call
      then call l.new_pc
          (or_tag cpu (or_tag cpu s l.new_pc tag_subroutine) l.next_pc tag_after_call)
      else done s

  pub after_branch : Tagging → Outcome
  after_branch s =
      if has l.tag tag_branch
      then call l.new_pc (or_tag cpu s l.new_pc tag_branch_target)
      else done s

  -- The body at an address that is not code yet; `again` is the next round of the loop.
  pub body : (ℕ → Tagging → Outcome) → ℕ → Tagging → Outcome
  unfolding mark trap_ends after_trap after_call after_branch ends next_pc2
  body again pc s =
      let s' = mark cpu l pc s in
      if trap_ends cpu l.tag then done s' else (do
        s1 ← after_trap s'
        s2 ← after_call s1
        s3 ← after_branch s2
        if ends l.tag then done s3 else again l.next_pc s3)

-- `indeterminate` is what the variables of a call hold before `tag_instr` stores into them.
module _ (cpu : Cpu) (tag_instr : ℕ → Written) (indeterminate : Locals) where
  -- The entry of a call: `run` is its loop.
  pub enter : (ℕ → Locals → ℕ → Tagging → Outcome) → ℕ → ℕ → Tagging → Outcome
  enter run level pc s =
      if has cpu.flags_codegen codegen_tag_limit && (level == limit_tagging_dfs)
      then done s
      else run level indeterminate pc s

  pub loop : ℕ → ℕ → Locals → ℕ → Tagging → Outcome
  unfolding body enter
  loop zero level l pc s = out_of_fuel
  loop (suc fuel) level l pc s =
      let l' = store (tag_instr pc) l in
      if not (is_inside_code_area cpu pc)
      then done s
      else if is_code cpu s pc
      then done s
      else body cpu tag_instr (enter (loop fuel) (level + 1)) l' (loop fuel level l') pc s

  unfoldable pub tag_recursive : ℕ → ℕ → ℕ → Tagging → Outcome
  unfolding loop
  tag_recursive fuel level pc s = enter (loop fuel) level pc s
