-- ===== src/Tag/Flow.antt =====
-- The control flow that a frontend describes, independent of the search: which address may run
-- after an instruction, and what is reachable from an entry inside the code area.
use libcpu.Base.{ℕ, ◌+◌, ◌%◌, ◌≡◌, ◌⊎◌, true, false, has, bit_or}
use libcpu.Tag.Flags.{
  tag_call, tag_ret, tag_branch, tag_trap, tag_conditional, addr_mod, hint_trap_returns,
  hint_trap_returns_twice,
}
use libcpu.Tag.Store.{Cpu, is_inside_code_area}
use libcpu.Tag.Arch.{Written, tag_of, new_pc_of, next_pc_of}

-- A trap that the client did not announce as returning.
abbrev pub Stops : Cpu → Written → Type 0
Stops cpu w =
    (has (tag_of w) tag_trap ≡ true)
    × (has cpu.flags_hint (bit_or hint_trap_returns hint_trap_returns_twice) ≡ false)

module _ (cpu : Cpu) (tag_instr : ℕ → Written) where
  -- Control may pass from the instruction at `pc` to `q`.
  pub data Flow (pc q : ℕ) : Type 0 where
    next :
        ¬ Stops cpu (tag_instr pc)
        → has (tag_of (tag_instr pc)) tag_ret ≡ false
        → (has (tag_of (tag_instr pc)) tag_branch ≡ false)
          ⊎ (has (tag_of (tag_instr pc)) tag_conditional ≡ true)
        → q ≡ next_pc_of (tag_instr pc)
        → Flow pc q
    target :
        ¬ Stops cpu (tag_instr pc)
        → (has (tag_of (tag_instr pc)) tag_call ≡ true)
          ⊎ (has (tag_of (tag_instr pc)) tag_branch ≡ true)
        → q ≡ new_pc_of (tag_instr pc)
        → Flow pc q
    skip :
        has (tag_of (tag_instr pc)) tag_trap ≡ true
        → has cpu.flags_hint hint_trap_returns_twice ≡ true
        → q ≡ (next_pc_of (tag_instr pc) + (tag_instr (next_pc_of (tag_instr pc))).bytes) % addr_mod
        → Flow pc q

  -- Reachable from an entry, through instructions of the code area only.
  pub data Reach (e : ℕ) : ℕ → Type 0 where
    here : is_inside_code_area cpu e ≡ true → Reach e e
    step : {a q : ℕ} → Reach e a → Flow a q → is_inside_code_area cpu q ≡ true → Reach e q

  pub Reach-inside : {e a : ℕ} → Reach e a → is_inside_code_area cpu a ≡ true
  Reach-inside (here h) = h
  Reach-inside (step r f h) = h

  pub Reach-trans : {e a b : ℕ} → Reach e a → Reach a b → Reach e b
  Reach-trans r (here h) = r
  Reach-trans r (step s f h) = step (Reach-trans r s) f h

  pub Reach-start_inside : {e a : ℕ} → Reach e a → is_inside_code_area cpu e ≡ true
  Reach-start_inside (here h) = h
  Reach-start_inside (step r f h) = Reach-start_inside r
