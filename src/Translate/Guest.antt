-- ===== src/Translate/Guest.antt =====
-- The guest program, independent of the blocks: one step executes the instruction at an address, as
-- its tag says where control goes.
use libcpu.Base.{
  ℕ, zero, suc, ◌≡◌, Bool, true, false, not, List, is_case, ◌&&◌, ◌==◌, Option, none, some,
  if◌then◌else◌, has, ◌|||◌,
}
use libcpu.Tag.Flags.{
  tag_continue, tag_call, tag_branch, tag_trap, tag_conditional, tag_delay_slot, new_pc_none,
}
use libcpu.Tag.Arch.{Locals}
use libcpu.Translate.Builder.{Target}
use libcpu.Translate.Instr.{jumps, delay_pc}
use libcpu.Translate.Meaning.{Machine}

pub data Config (S : Type 0) : Type 0 where
  at : ℕ → S → Config S
  trapped : S → Config S

-- An instruction without a delay slot goes on exactly if it does not jump or trap; one with a delay
-- slot jumps.
pub record IsKind (tag : ℕ) : Type 0 where
  pub exclusive :
      has tag tag_delay_slot ≡ false
      → has tag tag_continue ≡ not (jumps tag) && not (has tag tag_trap)
  pub slot_jumps : has tag tag_delay_slot ≡ true → jumps tag ≡ true

module _ {S : Type 0} (m : Machine S) where
  -- The guest's configuration when a block is left for a target; a label is one of the function's.
  unfoldable pub config_of : List ℕ → Target × S → Option (Config S)
  config_of labels (Target.dispatch, s) = some (at (m.pc_of s) s)
  config_of labels (Target.ret, s) = some (at (m.pc_of s) s)
  config_of labels (Target.label a, s) = if is_case a labels then some (at a s) else none
  config_of labels (Target.leaving a, s) = some (at a s)
  config_of labels (Target.trap, s) = some (trapped s)
  config_of labels _ = none

  unfoldable pub config_after : List ℕ → Option (Target × S) → Option (Config S)
  unfolding config_of
  config_after labels none = none
  config_after labels (some p) = config_of labels p

  module _ (tag_of : ℕ → ℕ) (locals : ℕ → Locals) (length : ℕ → ℕ) where
    -- Where a jump goes: to its target, or where the instruction left the PC.
    unfoldable pub destination : ℕ → S → ℕ
    destination pc s =
        if has (tag_of pc) (tag_call ||| tag_branch)
        then if (locals pc).new_pc == new_pc_none then m.pc_of s else (locals pc).new_pc
        else m.pc_of s

    abbrev pub taken : ℕ → S → Bool
    taken pc s = if has (tag_of pc) tag_conditional then m.holds pc s else true

    unfoldable pub guest_step : ℕ → S → Config S
    unfolding destination
    guest_step pc s =
        if has (tag_of pc) tag_delay_slot
        then if taken pc s
          then (let s' = m.exec (delay_pc length pc) (m.exec pc s) in at (destination pc s') s')
          else at (locals pc).next_pc (m.exec (delay_pc length pc) s)
        else if taken pc s
        then if jumps (tag_of pc)
          then at (destination pc (m.exec pc s)) (m.exec pc s)
          else if has (tag_of pc) tag_trap
          then trapped (m.exec pc s)
          else at (locals pc).next_pc (m.exec pc s)
        else at (locals pc).next_pc s

    unfoldable pub guest_from : ℕ → Config S → Config S
    unfolding guest_step
    guest_from zero c = c
    guest_from (suc n) (at pc s) = guest_from n (guest_step pc s)
    guest_from (suc n) (trapped s) = trapped s
